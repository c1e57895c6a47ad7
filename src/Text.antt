-- ===== src/Text.antt =====
-- The methods of `str` that src/cert9_cleanup.rs and src/backend_other.rs use, on a string as the list
-- of its characters.
pub mod Lines
use osclientcerts.Prelude.{
  ℕ, Bool, true, false, ◌&&◌, ◌||◌, Option, none, some, List, [], ◌∷◌, ◌==◌, leb, if◌then◌else◌,
}

abbrev pub Text : Type 0
Text = List ℕ

-- `char::is_whitespace`: the characters with the property White_Space.
unfoldable pub is_whitespace : ℕ → Bool
is_whitespace c =
    (leb 9 c && leb c 13)
    || c == 0x20
    || c == 0x85
    || c == 0xA0
    || c == 0x1680
    || (leb 0x2000 c && leb c 0x200A)
    || c == 0x2028
    || c == 0x2029
    || c == 0x202F
    || c == 0x205F
    || c == 0x3000

unfoldable pub trim_start : Text → Text
trim_start [] = []
trim_start (c ∷ cs) = let rest = trim_start cs in if is_whitespace c then rest else c ∷ cs

-- A character in front of what is left of the rest: white space is kept only before something.
unfoldable pub keep_before : ℕ → Text → Text
keep_before c [] = if is_whitespace c then [] else c ∷ []
keep_before c (d ∷ ds) = c ∷ d ∷ ds

unfoldable pub trim_end : Text → Text
trim_end [] = []
trim_end (c ∷ cs) = keep_before c (trim_end cs)

-- `str::trim`
unfoldable pub trim : Text → Text
trim s = trim_end (trim_start s)

-- `str::strip_prefix`
unfoldable pub strip_prefix : Text → Text → Option Text
strip_prefix [] s = some s
strip_prefix (p ∷ ps) [] = none
strip_prefix (p ∷ ps) (c ∷ cs) = let rest = strip_prefix ps cs in if p == c then rest else none

-- A character in front of a string that may not be there.
unfoldable pub in_front : ℕ → Option Text → Option Text
in_front c none = none
in_front c (some s) = some (c ∷ s)

-- `str::strip_suffix` of one character.
unfoldable pub strip_suffix : ℕ → Text → Option Text
strip_suffix last [] = none
strip_suffix last (c ∷ []) = if c == last then some [] else none
strip_suffix last (c ∷ d ∷ ds) = in_front c (strip_suffix last (d ∷ ds))

unfoldable pub is_some : Option Text → Bool
is_some none = false
is_some (some _) = true

-- `str::starts_with`
unfoldable pub starts_with : Text → Text → Bool
starts_with s prefix = is_some (strip_prefix prefix s)

-- A character in front of the first line.
unfoldable pub onto_first : ℕ → List Text → List Text
onto_first c [] = (c ∷ []) ∷ []
onto_first c (l ∷ ls) = (c ∷ l) ∷ ls

unfoldable pub begins_with : ℕ → Text → Bool
begins_with first [] = false
begins_with first (c ∷ cs) = c == first

-- `str::lines`: a line ends before a line feed, or before a carriage return and a line feed.
unfoldable pub lines : Text → List Text
lines [] = []
lines (c ∷ cs) =
    let rest = lines cs in
    if c == 10 then [] ∷ rest else if c == 13 && begins_with 10 cs then rest else onto_first c rest
