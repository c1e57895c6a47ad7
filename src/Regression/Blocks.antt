-- ===== src/Regression/Blocks.antt =====
-- How a text of blocks is cut into its blocks, and a block into its lines.
use mathlib.Core.List.{append-nil, append_assoc}
use osclientcerts.Prelude.{
  ℕ, ◌≡◌, refl, ap, sym, subst, ◌∙◌, true, false, ◌&&◌, List, [], ◌∷◌, ◌++◌, All, ◌==◌, arith,
}
use osclientcerts.Text.{Text, trim_end, onto_first, begins_with, lines}
use osclientcerts.Text.Lines.{lf, unlines, end_line, HasNoFeed, lines-end_line}
use osclientcerts.Regression.Manifest.{split_blocks}

-- A line that is not empty, has no line feed, and does not end with white space.
pub record IsLine (l : Text) : Type 0 where
  pub first : ℕ
  pub others : Text
  pub parts : l ≡ first ∷ others
  pub no_feed : HasNoFeed l
  pub end : trim_end l ≡ l

-- Lines with a line feed between them.
unfoldable pub joined_lines : List Text → Text
joined_lines [] = []
joined_lines (l ∷ []) = l
joined_lines (l ∷ m ∷ ls) = l ++ 10 ∷ joined_lines (m ∷ ls)

-- A text in front of the first block.
unfoldable pub onto_block : Text → List Text → List Text
onto_block l [] = l ∷ []
onto_block l (b ∷ bs) = (l ++ b) ∷ bs

split_blocks-other :
    (c : ℕ) (t : Text) → (c == 10) ≡ false → split_blocks (c ∷ t) ≡ onto_first c (split_blocks t)
unfolding split_blocks onto_first
split_blocks-other c [] h = refl
split_blocks-other c (d ∷ t) h = ground arith

onto_first-onto_block :
    (c : ℕ) (l : Text) (bs : List Text) → onto_first c (onto_block l bs) ≡ onto_block (c ∷ l) bs
unfolding onto_first onto_block
onto_first-onto_block c l [] = refl
onto_first-onto_block c l (b ∷ bs) = refl

onto_block-first : (c : ℕ) (bs : List Text) → onto_first c bs ≡ onto_block [] (onto_first c bs)
unfolding onto_first onto_block
onto_block-first c [] = refl
onto_block-first c (b ∷ bs) = refl

split_blocks-empty : (t : Text) → split_blocks t ≡ onto_block [] (split_blocks t)
unfolding split_blocks onto_block
split_blocks-empty [] = refl
split_blocks-empty (c ∷ []) = refl
split_blocks-empty (c ∷ d ∷ cs) =
    elim (c == 10 && d == 10)
      as (λ b.
        elim b as (λ _. List Text) [
          | true ↦ [] ∷ split_blocks cs
          | false ↦ onto_first c (split_blocks (d ∷ cs))
        ]
        ≡ onto_block [] (elim b as (λ _. List Text) [
          | true ↦ [] ∷ split_blocks cs
          | false ↦ onto_first c (split_blocks (d ∷ cs))
        ])) [ true ↦ refl | false ↦ onto_block-first c (split_blocks (d ∷ cs)) ]

split_blocks-line :
    (l t : Text) → HasNoFeed l → split_blocks (l ++ t) ≡ onto_block l (split_blocks t)
split_blocks-line [] t h = split_blocks-empty t
split_blocks-line (c ∷ l) t (h, hs) =
    split_blocks-other c (l ++ t) h
    ∙ ap (onto_first c) (split_blocks-line l t hs)
    ∙ onto_first-onto_block c l (split_blocks t)

-- Two line feeds end a block; one in front of a line does not.
split_blocks-end : (l t : Text) → onto_block l (split_blocks (10 ∷ 10 ∷ t)) ≡ l ∷ split_blocks t
unfolding split_blocks onto_block
split_blocks-end l t = ap (λ (x : Text). x ∷ split_blocks t) (append-nil l)

split_blocks-feed :
    (c : ℕ) (cs : Text)
    → (c == 10) ≡ false
    → split_blocks (10 ∷ c ∷ cs) ≡ onto_first 10 (split_blocks (c ∷ cs))
unfolding split_blocks
split_blocks-feed c cs h = ground arith

-- A line does not begin with a line feed.
first_no_feed : (l : Text) (h : IsLine l) → (h.first == 10) ≡ false
first_no_feed l h = let all = subst HasNoFeed h.parts h.no_feed in all.0

pub split_blocks-feed_unlines :
    (l : Text) (ls : List Text) (t : Text)
    → IsLine l
    → split_blocks (10 ∷ (unlines lf (l ∷ ls) ++ t))
      ≡ onto_first 10 (split_blocks (unlines lf (l ∷ ls) ++ t))
unfolding unlines
split_blocks-feed_unlines l ls t h =
    subst
      (λ x.
        split_blocks (10 ∷ ((x ++ end_line lf (unlines lf ls)) ++ t))
        ≡ onto_first 10 (split_blocks ((x ++ end_line lf (unlines lf ls)) ++ t)))
      (sym h.parts)
      (split_blocks-feed h.first ((h.others ++ end_line lf (unlines lf ls)) ++ t)
        (first_no_feed l h))

-- The lines of a block, and a line feed, before another text.
pub split_blocks-unlines :
    (l : Text) (ls : List Text) (t : Text)
    → All IsLine (l ∷ ls)
    → split_blocks (unlines lf (l ∷ ls) ++ 10 ∷ t) ≡ joined_lines (l ∷ ls) ∷ split_blocks t
unfolding unlines end_line joined_lines onto_first onto_block
split_blocks-unlines l [] t (h, _) =
    ap split_blocks (append_assoc l (10 ∷ []) (10 ∷ t))
    ∙ split_blocks-line l (10 ∷ 10 ∷ t) h.no_feed
    ∙ split_blocks-end l t
split_blocks-unlines l (m ∷ ls) t (h, (h', hs)) =
    ap split_blocks (append_assoc l (10 ∷ unlines lf (m ∷ ls)) (10 ∷ t))
    ∙ split_blocks-line l (10 ∷ (unlines lf (m ∷ ls) ++ 10 ∷ t)) h.no_feed
    ∙ ap (onto_block l) (split_blocks-feed_unlines m ls (10 ∷ t) h')
    ∙ ap (λ (bs : List Text). onto_block l (onto_first 10 bs))
        (split_blocks-unlines m ls t (h', hs))

lines_once : (c : ℕ) (cs : Text) → HasNoFeed (c ∷ cs) → lines (c ∷ cs) ≡ (c ∷ cs) ∷ []
unfolding lines begins_with onto_first
lines_once c [] h = ground arith
lines_once c (d ∷ ds) (h, hs) = let later = lines_once d ds hs in ground arith

lines-last : (l : Text) → IsLine l → lines l ≡ l ∷ []
lines-last l h =
    subst (λ x. lines x ≡ x ∷ []) (sym h.parts)
      (lines_once h.first h.others (subst HasNoFeed h.parts h.no_feed))

-- The lines of a block are what was joined.
pub lines-joined_lines : (ls : List Text) → All IsLine ls → lines (joined_lines ls) ≡ ls
unfolding joined_lines lines end_line
lines-joined_lines [] h = refl
lines-joined_lines (l ∷ []) (h, _) = lines-last l h
lines-joined_lines (l ∷ m ∷ ls) (h, hs) =
    lines-end_line lf l (joined_lines (m ∷ ls)) h.no_feed h.end
    ∙ ap (λ (x : List Text). l ∷ x) (lines-joined_lines (m ∷ ls) hs)
