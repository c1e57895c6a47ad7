-- ===== src/Macos/Matching.antt =====
-- src/backend_macos.rs: what matches a template, against the attributes that can be read.
use osclientcerts.Prelude.{
  ℕ, Bool, true, false, ◌≡◌, ◌≢◌, ◌↔◌, refl, Option, none, some, [], ◌∷◌, Bytes, bytes_eq,
  bytes_eq_iff, All, arith,
}
use osclientcerts.Cryptoki.{standard}
use osclientcerts.Backend.{Object, cert, key, trust, Attributes}
use osclientcerts.Macos.Api.{MacosApi}
use osclientcerts.Macos.Objects.{Cert, Key, Trust}
use osclientcerts.Macos.Attributes.{
  all_match, cert_attr_matches, key_attr_matches, cert_get_attribute, key_get_attribute,
  object_matches, object_get_attribute,
}

-- The value that was read is the one that was asked for.
unfoldable pub is_read : Option Bytes → Bytes → Bool
is_read none v = false
is_read (some x) v = bytes_eq v x

is_read_iff : (x : Option Bytes) (v : Bytes) → (is_read x v ≡ true) ↔ (x ≡ some v)
unfolding is_read
is_read_iff none v = (λ h. cc, λ h. cc)
is_read_iff (some x) v =
    (λ h. let e = (bytes_eq_iff v x).0 h in cc, λ h. (bytes_eq_iff v x).1 (ground arith))

cert_attr_matches_lem :
    (c : Cert) (a : ℕ) (v : Bytes)
    → cert_attr_matches standard c a v ≡ is_read (cert_get_attribute standard c a) v
unfolding cert_attr_matches cert_get_attribute is_read
cert_attr_matches_lem c a v = ground arith

key_attr_matches_lem :
    (w : MacosApi) (c : Key w) (a : ℕ) (v : Bytes)
    → key_attr_matches standard w c a v ≡ is_read (key_get_attribute standard w c a) v
unfolding key_attr_matches key_get_attribute is_read
key_attr_matches_lem w c a v = ground arith

all_match_iff :
    (f : ℕ → Bytes → Bool) (g : ℕ → Option Bytes)
    → ((a : ℕ) (v : Bytes) → f a v ≡ is_read (g a) v)
    → (attrs : Attributes) → (all_match f attrs ≡ true) ↔ All (λ attr. g attr.0 ≡ some attr.1) attrs
unfolding all_match
all_match_iff f g same [] = (λ h. tt, λ h. refl)
all_match_iff f g same ((a, v) ∷ attrs) =
    let one = is_read_iff (g a) v in
    let rest = all_match_iff f g same attrs in
    let e = same a v in
    (
      λ h. (one.0 (ground arith), rest.0 (ground arith)),
      λ h. let first = one.1 h.0 in let others = rest.1 h.1 in ground arith,
    )

-- With the published values of the constants, an object matches a template of at least one attribute
-- exactly if the value of each attribute of the template is the one that is read of the object.
pub object_matches_iff :
    (w : MacosApi) (object : Object Cert (Key w) Trust) (attrs : Attributes)
    → attrs ≢ []
    → (object_matches standard w object attrs ≡ true)
      ↔ All (λ attr. object_get_attribute standard w object attr.0 ≡ some attr.1) attrs
unfolding object_matches object_get_attribute
object_matches_iff w (cert c) attrs some_attrs =
    all_match_iff (cert_attr_matches standard c) (cert_get_attribute standard c)
      (cert_attr_matches_lem c) attrs
object_matches_iff w (key c) attrs some_attrs =
    all_match_iff (key_attr_matches standard w c) (key_get_attribute standard w c)
      (key_attr_matches_lem w c) attrs
object_matches_iff w (trust _) [] some_attrs = absurd (some_attrs refl)
object_matches_iff w (trust _) (attr ∷ attrs) some_attrs = (λ h. cc, λ h. cc (h.0))
