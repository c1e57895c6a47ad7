-- ===== src/Regression/Manifest.antt =====
-- src/backend_other.rs, `nss_regression`: `parse_manifest` and `Block`. A panic is `none`.
use osclientcerts.Prelude.{
  ℕ, Bool, true, false, not, ◌&&◌, Option, none, some, List, [], ◌∷◌, bytes_eq, ◌==◌, if◌then◌else◌,
}
use osclientcerts.Text.{Text, trim, onto_first, lines}

-- A key and its value.
abbrev pub Pair : Type 0
Pair = Text × Text

abbrev pub Block : Type 0
Block = List Pair

infixl 5 ◌>>=◌
abbrev pub ◌>>=◌ {ℓ κ} : {A : Type ℓ} {B : Type κ} → Option A → (A → Option B) → Option B
none >>= f = none
some a >>= f = f a

-- `text.split("\n\n")`
unfoldable pub split_blocks : Text → List Text
split_blocks [] = [] ∷ []
split_blocks (c ∷ []) = (c ∷ []) ∷ []
split_blocks (c ∷ d ∷ cs) = elim (c == 10 && d == 10) [
  | true ↦ [] ∷ split_blocks cs
  | false ↦ onto_first c (split_blocks (d ∷ cs))
]

-- A character in front of the first of two parts.
unfoldable pub onto_key : ℕ → Option Pair → Option Pair
onto_key c none = none
onto_key c (some (key, value)) = some (c ∷ key, value)

-- `line.split_once('=')`
unfoldable pub split_once : ℕ → Text → Option Pair
split_once separator [] = none
split_once separator (c ∷ cs) =
    let later = onto_key c (split_once separator cs) in
    if c == separator then some ([], cs) else later

-- A line that is neither empty nor a comment.
unfoldable pub is_pair_line : Text → Bool
is_pair_line [] = false
is_pair_line (c ∷ cs) = not (c == b'#')

unfoldable pub trim_pair : Pair → Pair
trim_pair (key, value) = (trim key, trim value)

unfoldable pub parse_line : Text → Option Pair
parse_line line = do pair ← split_once b'=' line; some (trim_pair pair)

-- The pairs of the lines of a block.
unfoldable pub parse_lines : List Text → Option Block
parse_lines [] = some []
parse_lines (raw_line ∷ rest) =
    let line = trim raw_line in
    let later = parse_lines rest in
    if is_pair_line line
    then (do pair ← parse_line line; pairs ← later; some (pair ∷ pairs))
    else later

-- A block in front of others, unless it is empty.
unfoldable pub push_block : Block → List Block → List Block
push_block [] blocks = blocks
push_block (pair ∷ pairs) blocks = (pair ∷ pairs) ∷ blocks

unfoldable pub parse_blocks : List Text → Option (List Block)
parse_blocks [] = some []
parse_blocks (text ∷ texts) = do
  block ← parse_lines (lines text)
  blocks ← parse_blocks texts
  some (push_block block blocks)

unfoldable pub parse_manifest : Text → Option (List Block)
parse_manifest text = parse_blocks (split_blocks text)

-- `Block::get`, and `Block::require`, which panics.
unfoldable pub get : Block → Text → Option Text
get [] key = none
get ((k, v) ∷ pairs) key = let later = get pairs key in if bytes_eq k key then some v else later
