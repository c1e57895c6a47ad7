-- ===== src/Regression/Generated.antt =====
-- tests/nss-regression/generate_chains.py: the manifest of a case, as `cert_block`, `trust_block` and
-- `write_case` write it.
use osclientcerts.Prelude.{Bool, true, false, List, [], ◌∷◌, ◌++◌, map}
use osclientcerts.Text.{Text}
use osclientcerts.Text.Lines.{lf, unlines}
use osclientcerts.Regression.Manifest.{Pair, Block}
use osclientcerts.Regression.Objects.{
  kind, label, id, der, issuer, serial, subject, sha1, cert_kind, trust_kind,
}

-- What follows the prefix in a file's name.
abbrev pub dot_der : Text
dot_der = b'.' ∷ b'd' ∷ b'e' ∷ b'r' ∷ []

abbrev pub dot_issuer : Text
dot_issuer = b'.' ∷ b'i' ∷ b's' ∷ b's' ∷ b'u' ∷ b'e' ∷ b'r' ∷ b'.' ∷ b'd' ∷ b'e' ∷ b'r' ∷ []

abbrev pub dot_subject : Text
dot_subject = b'.' ∷ b's' ∷ b'u' ∷ b'b' ∷ b'j' ∷ b'e' ∷ b'c' ∷ b't' ∷ b'.' ∷ b'd' ∷ b'e' ∷ b'r' ∷ []

abbrev pub dot_serial : Text
dot_serial = b'.' ∷ b's' ∷ b'e' ∷ b'r' ∷ b'i' ∷ b'a' ∷ b'l' ∷ b'.' ∷ b'b' ∷ b'i' ∷ b'n' ∷ []

abbrev pub dot_sha1 : Text
dot_sha1 = b'.' ∷ b's' ∷ b'h' ∷ b'a' ∷ b'1' ∷ b'.' ∷ b'b' ∷ b'i' ∷ b'n' ∷ []

abbrev pub root : Text
root = b'r' ∷ b'o' ∷ b'o' ∷ b't' ∷ []

abbrev pub leaf : Text
leaf = b'l' ∷ b'e' ∷ b'a' ∷ b'f' ∷ []

abbrev pub print_pair : Pair → Text
print_pair (key, value) = key ++ b'=' ∷ value

-- Each pair on a line.
unfoldable pub print_block : Block → Text
print_block pairs = unlines lf (map print_pair pairs)

unfoldable pub cert_block : Text → Text → Block
cert_block prefix name =
    (kind, cert_kind)
    ∷ (label, name)
    ∷ (id, name)
    ∷ (der, prefix ++ dot_der)
    ∷ (issuer, prefix ++ dot_issuer)
    ∷ (subject, prefix ++ dot_subject)
    ∷ (serial, prefix ++ dot_serial)
    ∷ []

unfoldable pub sha1_pairs : Text → Bool → Block
sha1_pairs root_prefix true = (sha1, root_prefix ++ dot_sha1) ∷ []
sha1_pairs root_prefix false = []

unfoldable pub trust_block : Text → Bool → Block
trust_block root_prefix include_sha1 =
    (kind, trust_kind)
    ∷ (issuer, root_prefix ++ dot_issuer)
    ∷ (serial, root_prefix ++ dot_serial)
    ∷ sha1_pairs root_prefix include_sha1

-- The argument `trust` of `write_case`; another one is an error.
pub data TrustChoice : Type 0 where
  full : TrustChoice
  missing_sha1 : TrustChoice
  no_trust : TrustChoice

unfoldable pub trust_blocks : TrustChoice → List Block
trust_blocks full = trust_block root true ∷ []
trust_blocks missing_sha1 = trust_block root false ∷ []
trust_blocks no_trust = []

-- `blocks` in `write_case`.
unfoldable pub case_blocks : TrustChoice → List Block
case_blocks choice = cert_block root root ∷ cert_block leaf leaf ∷ trust_blocks choice

-- `"\n\n".join(blocks) + "\n"`
unfoldable pub join_blocks : List Text → Text
join_blocks [] = 10 ∷ []
join_blocks (block ∷ []) = block ++ 10 ∷ []
join_blocks (block ∷ next ∷ blocks) = block ++ 10 ∷ 10 ∷ join_blocks (next ∷ blocks)

unfoldable pub manifest : List Block → Text
manifest blocks = join_blocks (map print_block blocks)
