-- ===== src/Regression/RoundTrip.antt =====
-- What is written as a manifest is parsed as it was.
use mathlib.Core.List.{append-nil}
use osclientcerts.Prelude.{
  ℕ, ◌≡◌, refl, ap, subst, ◌∙◌, Bool, true, not, ◌&&◌, some, List, [], ◌∷◌, ◌++◌, All, ◌==◌, arith,
  map, All-join,
}
use osclientcerts.Text.{Text, is_whitespace, trim_start, trim_end, trim, onto_first, lines}
use osclientcerts.Text.Lines.{IsPlain, is_solid, is_solid-HasNoFeed, trim_end-append}
use osclientcerts.Regression.Manifest.{
  Pair, Block, split_blocks, onto_key, split_once, is_pair_line, trim_pair, parse_line, parse_lines,
  push_block, parse_blocks, parse_manifest,
}
use osclientcerts.Regression.Generated.{print_pair, print_block, join_blocks, manifest}
use osclientcerts.Regression.Blocks.{
  IsLine, joined_lines, split_blocks-feed_unlines, split_blocks-unlines, lines-joined_lines,
}

-- A key has no white space and no `=`, is not empty, and begins no comment.
unfoldable pub has_no_equals : Text → Bool
has_no_equals [] = true
has_no_equals (c ∷ cs) = not (c == b'=') && has_no_equals cs

unfoldable pub is_key : Text → Bool
unfolding is_solid has_no_equals is_pair_line
is_key s = is_solid s && has_no_equals s && is_pair_line s

abbrev pub IsPair : Pair → Type 0
IsPair (key, value) = (is_key key ≡ true) × IsPlain value

split_once-print_pair :
    (key value : Text)
    → has_no_equals key ≡ true
    → split_once b'=' (key ++ b'=' ∷ value) ≡ some (key, value)
unfolding split_once onto_key has_no_equals
split_once-print_pair [] value h = refl
split_once-print_pair (c ∷ key) value h =
    let later = split_once-print_pair key value in ground arith

trim_start-solid :
    (c : ℕ) (cs : Text)
    → is_solid (c ∷ cs) ≡ true
    → (t : Text) → trim_start ((c ∷ cs) ++ t) ≡ (c ∷ cs) ++ t
unfolding is_solid trim_start
trim_start-solid c cs h t = ground arith

trim_end-equals : (value : Text) → trim_end value ≡ value → trim_end (b'=' ∷ value) ≡ b'=' ∷ value
unfolding is_solid is_whitespace
trim_end-equals value e = trim_end-append (b'=' ∷ []) value refl e

trim_end-solid : (s : Text) → is_solid s ≡ true → trim_end s ≡ s
unfolding trim_end
trim_end-solid s h = subst (λ x. trim_end x ≡ x) (append-nil s) (trim_end-append s [] h refl)

pub is_solid-append :
    (s t : Text) → is_solid s ≡ true → is_solid t ≡ true → is_solid (s ++ t) ≡ true
unfolding is_solid
is_solid-append [] t h h' = h'
is_solid-append (c ∷ cs) t h h' = ground (arith, is_solid-append cs t)

pub is_solid-IsPlain : (s : Text) → is_solid s ≡ true → IsPlain s
unfolding is_solid trim_start
is_solid-IsPlain [] h = record { no_feed = tt; start = refl; end = trim_end-solid [] refl }
is_solid-IsPlain (c ∷ cs) h = record {
  no_feed = is_solid-HasNoFeed (c ∷ cs) h;
  start = ground arith;
  end = trim_end-solid (c ∷ cs) h;
}

is_key_parts :
    (s : Text)
    → is_key s ≡ true
    → (is_solid s ≡ true) × (has_no_equals s ≡ true) × (is_pair_line s ≡ true)
unfolding is_key
is_key_parts s h = (ground arith, ground arith, ground arith)

trim-key : (s : Text) → is_key s ≡ true → trim s ≡ s
unfolding trim trim_start trim_end is_solid
trim-key [] h = refl
trim-key (c ∷ cs) h =
    let (solid, _, _) = is_key_parts (c ∷ cs) h in
    let start : trim_start (c ∷ cs) ≡ c ∷ cs = ground arith in
    ap trim_end start ∙ trim_end-solid (c ∷ cs) solid

trim-plain : (s : Text) → IsPlain s → trim s ≡ s
unfolding trim
trim-plain s plain = ap trim_end plain.start ∙ plain.end

print_pair-end :
    (key value : Text)
    → is_key key ≡ true
    → IsPlain value
    → trim_end (key ++ b'=' ∷ value) ≡ key ++ b'=' ∷ value
print_pair-end key value h plain =
    trim_end-append key (b'=' ∷ value) (is_key_parts key h).0 (trim_end-equals value plain.end)

print_pair-trim :
    (key value : Text)
    → is_key key ≡ true
    → IsPlain value
    → trim (key ++ b'=' ∷ value) ≡ key ++ b'=' ∷ value
unfolding trim is_pair_line
print_pair-trim [] value h plain = absurd (let no = (is_key_parts [] h).2 in cc)
print_pair-trim (c ∷ cs) value h plain =
    ap trim_end (trim_start-solid c cs (is_key_parts (c ∷ cs) h).0 (b'=' ∷ value))
    ∙ print_pair-end (c ∷ cs) value h plain

print_pair-is_pair_line :
    (key value : Text) → is_key key ≡ true → is_pair_line (key ++ b'=' ∷ value) ≡ true
unfolding is_pair_line
print_pair-is_pair_line [] value h = refl
print_pair-is_pair_line (c ∷ cs) value h = (is_key_parts (c ∷ cs) h).2

parse_line-print_pair : (pair : Pair) → IsPair pair → parse_line (print_pair pair) ≡ some pair
unfolding parse_line trim_pair
parse_line-print_pair (key, value) (h, plain) =
    rw
      (
        split_once-print_pair key value (is_key_parts key h).1,
        trim-key key h,
        trim-plain value plain,
      )
      refl

parse_lines-print_pair :
    (pairs : Block) → All IsPair pairs → parse_lines (map print_pair pairs) ≡ some pairs
unfolding parse_lines
parse_lines-print_pair [] h = refl
parse_lines-print_pair ((key, value) ∷ pairs) ((h, plain), hs) =
    let trimmed = print_pair-trim key value h plain in
    let kept = print_pair-is_pair_line key value h in
    let parsed = parse_line-print_pair (key, value) (h, plain) in
    let later = parse_lines-print_pair pairs hs in rw (trimmed, kept, parsed, later) refl

print_pair-IsLine : (pair : Pair) → IsPair pair → IsLine (print_pair pair)
unfolding is_pair_line
print_pair-IsLine ([], value) (h, plain) = absurd (let no = (is_key_parts [] h).2 in cc)
print_pair-IsLine (c ∷ cs, value) (h, plain) = record {
  first = c;
  others = cs ++ b'=' ∷ value;
  parts = refl;
  no_feed =
      All-join _ (c ∷ cs) (b'=' ∷ value) (is_solid-HasNoFeed (c ∷ cs) (is_key_parts (c ∷ cs) h).0)
        (refl, plain.no_feed);
  end = print_pair-end (c ∷ cs) value h plain;
}

print_pairs-IsLine : (pairs : Block) → All IsPair pairs → All IsLine (map print_pair pairs)
print_pairs-IsLine [] h = tt
print_pairs-IsLine (pair ∷ pairs) (h, hs) = (print_pair-IsLine pair h, print_pairs-IsLine pairs hs)

-- A block is some pairs.
abbrev pub IsBlock : Block → Type 0
IsBlock [] = ⊥
IsBlock (pair ∷ pairs) = All IsPair (pair ∷ pairs)

-- The text of a block, from the start or behind a line feed.
parse_block :
    (pair : Pair) (pairs : Block)
    → All IsPair (pair ∷ pairs)
    → parse_lines (lines (joined_lines (map print_pair (pair ∷ pairs)))) ≡ some (pair ∷ pairs)
parse_block pair pairs h =
    ap parse_lines
      (lines-joined_lines (map print_pair (pair ∷ pairs)) (print_pairs-IsLine (pair ∷ pairs) h))
    ∙ parse_lines-print_pair (pair ∷ pairs) h

parse_fed_block : (t : Text) → parse_lines (lines (10 ∷ t)) ≡ parse_lines (lines t)
unfolding parse_lines lines trim trim_start trim_end is_pair_line
parse_fed_block t = refl

parse_blocks-cons :
    (text : Text) (texts : List Text) (pair : Pair) (pairs : Block) (blocks : List Block)
    → parse_lines (lines text) ≡ some (pair ∷ pairs)
    → parse_blocks texts ≡ some blocks
    → parse_blocks (text ∷ texts) ≡ some ((pair ∷ pairs) ∷ blocks)
unfolding parse_blocks push_block
parse_blocks-cons text texts pair pairs blocks one later = rw (one, later) refl

-- What stands behind the line feed of a block.
rest_of : List Block → Text
rest_of [] = []
rest_of (block ∷ blocks) = 10 ∷ join_blocks (map print_block (block ∷ blocks))

join_blocks-rest :
    (block : Block) (blocks : List Block)
    → join_blocks (map print_block (block ∷ blocks)) ≡ print_block block ++ 10 ∷ rest_of blocks
unfolding join_blocks rest_of
join_blocks-rest block [] = refl
join_blocks-rest block (next ∷ blocks) = refl

split_blocks-block :
    (pair : Pair) (pairs : Block) (t : Text)
    → All IsPair (pair ∷ pairs)
    → split_blocks (print_block (pair ∷ pairs) ++ 10 ∷ t)
      ≡ joined_lines (map print_pair (pair ∷ pairs)) ∷ split_blocks t
unfolding print_block
split_blocks-block pair pairs t h =
    split_blocks-unlines (print_pair pair) (map print_pair pairs) t
      (print_pairs-IsLine (pair ∷ pairs) h)

split_blocks-fed :
    (pair : Pair) (pairs : Block) (blocks : List Block)
    → All IsPair (pair ∷ pairs)
    → split_blocks (10 ∷ join_blocks (map print_block ((pair ∷ pairs) ∷ blocks)))
      ≡ (10 ∷ joined_lines (map print_pair (pair ∷ pairs))) ∷ split_blocks (rest_of blocks)
unfolding print_block onto_first
split_blocks-fed pair pairs blocks h =
    let lines_of = print_pairs-IsLine (pair ∷ pairs) h in
    ap (λ (t : Text). split_blocks (10 ∷ t)) (join_blocks-rest (pair ∷ pairs) blocks)
    ∙ split_blocks-feed_unlines (print_pair pair) (map print_pair pairs) (10 ∷ rest_of blocks)
        (lines_of.0)
    ∙ ap (onto_first 10) (split_blocks-block pair pairs (rest_of blocks) h)

-- Nothing is read of an empty text.
parse_blocks-nothing : parse_blocks (split_blocks []) ≡ some []
unfolding parse_blocks split_blocks parse_lines lines push_block
parse_blocks-nothing = refl

parse_rest :
    (blocks : List Block)
    → All IsBlock blocks
    → parse_blocks (split_blocks (rest_of blocks)) ≡ some blocks
unfolding rest_of
parse_rest [] h = parse_blocks-nothing
parse_rest ([] ∷ blocks) (h, hs) = absurd h
parse_rest ((pair ∷ pairs) ∷ blocks) (h, hs) =
    let text = joined_lines (map print_pair (pair ∷ pairs)) in
    ap parse_blocks (split_blocks-fed pair pairs blocks h)
    ∙ parse_blocks-cons (10 ∷ text) (split_blocks (rest_of blocks)) pair pairs blocks
        (parse_fed_block text ∙ parse_block pair pairs h) (parse_rest blocks hs)

parse_manifest-empty : parse_manifest (manifest []) ≡ some []
unfolding parse_manifest manifest join_blocks parse_blocks split_blocks parse_lines lines push_block
    is_pair_line trim trim_start trim_end
parse_manifest-empty = refl

-- A manifest of blocks, written as the script writes it, is parsed as these blocks.
pub parse_manifest-manifest :
    (blocks : List Block) → All IsBlock blocks → parse_manifest (manifest blocks) ≡ some blocks
unfolding parse_manifest manifest
parse_manifest-manifest [] h = parse_manifest-empty
parse_manifest-manifest ([] ∷ blocks) (h, hs) = absurd h
parse_manifest-manifest ((pair ∷ pairs) ∷ blocks) (h, hs) =
    ap (λ (t : Text). parse_blocks (split_blocks t)) (join_blocks-rest (pair ∷ pairs) blocks)
    ∙ ap parse_blocks (split_blocks-block pair pairs (rest_of blocks) h)
    ∙ parse_blocks-cons _ (split_blocks (rest_of blocks)) pair pairs blocks
        (parse_block pair pairs h) (parse_rest blocks hs)
