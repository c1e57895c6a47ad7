-- ===== src/Windows/Supported.antt =====
-- An object only matches attributes that the backend lists as supported, so the answer that the
-- manager gives without looking hides no object.
use osclientcerts.Prelude.{ℕ, ◌≡◌, refl, false, [], ◌∷◌, Bytes, arith, Bool}
use osclientcerts.ByteOrder.{ByteOrder}
use osclientcerts.Cryptoki.{Cryptoki}
use osclientcerts.Backend.{Object, ObjectOf, cert, key, trust, Attributes}
use osclientcerts.BTreeMap.{BTreeMap}
use osclientcerts.Manager.Search.{supports, all_supported, matching_handles}
use osclientcerts.Windows.Api.{WindowsApi}
use osclientcerts.Windows.Objects.{Cert, Key, Trust}
use osclientcerts.Windows.Attributes.{
  cert_attr_matches, key_attr_matches, trust_attr_matches, all_match, object_matches,
}
use osclientcerts.Windows.Listing.{supported_attributes, windows_backend}

module _ (k : Cryptoki) where
  cert-unsupported :
      (c : Cert) (a : ℕ) (v : Bytes)
      → supports (supported_attributes k) a ≡ false
      → cert_attr_matches k c a v ≡ false
  unfolding supports cert_attr_matches
  cert-unsupported c a v h = ground arith

  trust-unsupported :
      (t : Trust) (a : ℕ) (v : Bytes)
      → supports (supported_attributes k) a ≡ false
      → trust_attr_matches k t a v ≡ false
  unfolding supports trust_attr_matches
  trust-unsupported t a v h = ground arith

  key-unsupported :
      (w : WindowsApi) (c : Key w) (a : ℕ) (v : Bytes)
      → supports (supported_attributes k) a ≡ false
      → key_attr_matches k w c a v ≡ false
  unfolding supports key_attr_matches
  key-unsupported w c a v h = ground arith

  all_match-unsupported :
      (f : ℕ → Bytes → Bool)
      → ((a : ℕ) (v : Bytes) → supports (supported_attributes k) a ≡ false → f a v ≡ false)
      → (attrs : Attributes) → all_supported (supported_attributes k) attrs ≡ false
      → all_match f attrs ≡ false
  unfolding all_supported all_match
  all_match-unsupported f none_of [] h = cc
  all_match-unsupported f none_of ((a, v) ∷ attrs) h =
      ground (arith, none_of a v, all_match-unsupported f none_of attrs)

module _ (k : Cryptoki) (w : WindowsApi) (attrs : Attributes)
    (unsupported : all_supported (supported_attributes k) attrs ≡ false) where
  object-unsupported :
      (object : Object Cert (Key w) Trust) → object_matches k w object attrs ≡ false
  unfolding object_matches
  object-unsupported (cert c) = all_match-unsupported k _ (cert-unsupported k c) attrs unsupported
  object-unsupported (key c) = all_match-unsupported k _ (key-unsupported k w c) attrs unsupported
  object-unsupported (trust t) = all_match-unsupported k _ (trust-unsupported k t) attrs unsupported

  -- On Windows, no object that the manager may know matches a template with an unsupported
  -- attribute: the search that the manager then skips would have found nothing.
  pub matching_handles-unsupported :
      (o : ByteOrder) (objects : BTreeMap (ObjectOf (windows_backend k o w)))
      → matching_handles (windows_backend k o w) objects attrs ≡ []
  unfolding matching_handles windows_backend
  matching_handles-unsupported o [] = refl
  matching_handles-unsupported o ((handle, object) ∷ objects) =
      rw (object-unsupported object) (matching_handles-unsupported o objects)
