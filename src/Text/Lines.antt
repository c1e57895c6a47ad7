-- ===== src/Text/Lines.antt =====
-- Printing texts in lines, and reading them back: trimming and splitting.
use osclientcerts.Prelude.{
  ℕ, ◌≡◌, refl, Bool, true, false, not, ◌&&◌, some, List, [], ◌∷◌, ◌++◌, All, ◌==◌, arith,
  List-cases,
}
use osclientcerts.Text.{
  Text, is_whitespace, keep_before, trim_start, trim_end, in_front, strip_suffix, onto_first,
  begins_with, lines,
}

-- What a line ends with.
pub data Eol : Type 0 where
  lf : Eol
  crlf : Eol

unfoldable pub end_line : Eol → Text → Text
end_line lf rest = 10 ∷ rest
end_line crlf rest = 13 ∷ 10 ∷ rest

unfoldable pub unlines : Eol → List Text → Text
unlines eol [] = []
unlines eol (l ∷ ls) = l ++ end_line eol (unlines eol ls)

-- No line feed; and no white space at either end.
abbrev pub HasNoFeed : Text → Type 0
HasNoFeed = All (λ c. (c == 10) ≡ false)

pub record IsPlain (s : Text) : Type 0 where
  pub no_feed : HasNoFeed s
  pub start : trim_start s ≡ s
  pub end : trim_end s ≡ s

-- No character is white space.
unfoldable pub is_solid : Text → Bool
is_solid [] = true
is_solid (c ∷ cs) = not (is_whitespace c) && is_solid cs

pub trim_end-append :
    (prefix s : Text)
    → is_solid prefix ≡ true
    → trim_end s ≡ s
    → trim_end (prefix ++ s) ≡ prefix ++ s
unfolding is_solid trim_end keep_before
trim_end-append [] s h e = e
trim_end-append (c ∷ cs) s h e = ground (arith, trim_end-append cs s, List-cases (cs ++ s))

pub trim_end-snoc :
    (s : Text) (c : ℕ) → is_whitespace c ≡ false → trim_end (s ++ c ∷ []) ≡ s ++ c ∷ []
unfolding trim_end keep_before
trim_end-snoc [] c h = ground arith
trim_end-snoc (d ∷ []) c h = ground arith
trim_end-snoc (d ∷ e ∷ es) c h = ground (arith, trim_end-snoc (e ∷ es) c h)

pub strip_suffix-snoc : (s : Text) (c : ℕ) → strip_suffix c (s ++ c ∷ []) ≡ some s
unfolding strip_suffix in_front
strip_suffix-snoc [] c = ground arith
strip_suffix-snoc (d ∷ ds) c = ground (arith, strip_suffix-snoc ds c, List-cases (ds ++ c ∷ []))

trim_end-tail : (c : ℕ) (cs : Text) → trim_end (c ∷ cs) ≡ c ∷ cs → trim_end cs ≡ cs
unfolding trim_end keep_before
trim_end-tail c [] e = refl
trim_end-tail c (d ∷ ds) e = ground (arith, List-cases (trim_end (d ∷ ds)))

-- A carriage return is white space.
last_no_return : (c : ℕ) → trim_end (c ∷ []) ≡ c ∷ [] → (c == 13) ≡ false
unfolding trim_end keep_before is_whitespace
last_no_return c e = ground arith

pub lines-end_line :
    (eol : Eol) (l rest : Text)
    → HasNoFeed l
    → trim_end l ≡ l
    → lines (l ++ end_line eol rest) ≡ l ∷ lines rest
unfolding lines begins_with onto_first end_line
lines-end_line lf [] rest h e = ground arith
lines-end_line crlf [] rest h e = ground arith
lines-end_line lf (c ∷ []) rest (h, _) e = ground (arith, last_no_return c e)
lines-end_line crlf (c ∷ []) rest (h, _) e = ground (arith, last_no_return c e)
lines-end_line eol (c ∷ d ∷ ds) rest (h, hs) e =
    let later = lines-end_line eol (d ∷ ds) rest hs (trim_end-tail c (d ∷ ds) e) in
    rw later (ground arith)

feed_is_whitespace : is_whitespace 10 ≡ true
unfolding is_whitespace
feed_is_whitespace = refl

no_feed : (c : ℕ) → is_whitespace c ≡ false → (c == 10) ≡ false
no_feed c h = ground (arith, feed_is_whitespace)

pub is_solid-HasNoFeed : (s : Text) → is_solid s ≡ true → HasNoFeed s
unfolding is_solid
is_solid-HasNoFeed [] h = tt
is_solid-HasNoFeed (c ∷ cs) h = (no_feed c (ground arith), is_solid-HasNoFeed cs (ground arith))
