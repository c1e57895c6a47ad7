-- ===== src/Windows/Findable.antt =====
-- A search for what an object answers of one of its attributes finds the object.
use osclientcerts.Prelude.{
  ℕ, ◌≡◌, refl, Bool, true, none, some, List, [], ◌∷◌, ok, Bytes, bytes_eq_refl, arith,
  Option-cases, Result-cases, inl, inr, All, All-join,
}
use osclientcerts.ByteOrder.{ByteOrder}
use osclientcerts.Cryptoki.{standard, Cryptoki, ck_true, ck_false}
use osclientcerts.Backend.{Object, cert, key, trust}
use osclientcerts.Manager.Search.{supports}
use osclientcerts.Windows.Api.{WindowsApi}
use osclientcerts.Windows.Objects.{Cert, Key, Trust, cert_new, key_new, trust_new}
use osclientcerts.Windows.Attributes.{
  stored_bool, requested_bool, bool_attr_matches, serial_number_matches, all_match,
  cert_attr_matches, cert_get_attribute, trust_attr_matches, trust_get_attribute, key_attr_matches,
  key_get_attribute, object_matches, object_get_attribute,
}
use osclientcerts.Windows.Chain.{issuer_cert, issuer_trust}
use osclientcerts.Windows.Climb.{list_root_trust_objects-All}
use osclientcerts.Windows.Listing.{supported_attributes, pair, pairs, list_objects}

serial_number_matches_refl : (bytes : Bytes) → serial_number_matches bytes bytes ≡ true
unfolding serial_number_matches
serial_number_matches_refl bytes = rw (bytes_eq_refl bytes) refl

-- A boolean that is stored matches itself.
bool_attr_matches_refl : (b : ℕ) → bool_attr_matches (b ∷ []) (b ∷ []) ≡ true
unfolding bool_attr_matches stored_bool requested_bool
bool_attr_matches_refl b = ground arith

cert-Findable :
    (c : Cert) (a : ℕ) (v : Bytes)
    → c.token ≡ ck_true ∷ []
    → cert_get_attribute standard c a ≡ some v
    → cert_attr_matches standard c a v ≡ true
unfolding cert_get_attribute cert_attr_matches
cert-Findable c a v token h =
    let yes = bool_attr_matches_refl ck_true in
    ground (arith, serial_number_matches_refl v, bytes_eq_refl v)

trust-Findable :
    (t : Trust) (a : ℕ) (v : Bytes)
    → t.token ≡ ck_true ∷ []
    → supports (supported_attributes standard) a ≡ true
    → trust_get_attribute standard t a ≡ some v
    → trust_attr_matches standard t a v ≡ true
unfolding trust_get_attribute trust_attr_matches supports
trust-Findable t a v token supported h =
    let yes = bool_attr_matches_refl ck_true in
    ground (arith, serial_number_matches_refl v, bytes_eq_refl v)

-- The booleans of a key are what each key is made with.
record HasFlags (w : WindowsApi) (c : Key w) : Type 0 where
  token : c.token ≡ ck_true ∷ []
  private : c.private ≡ ck_true ∷ []
  sign : c.sign ≡ ck_true ∷ []
  decrypt : c.decrypt ≡ ck_true ∷ []
  sensitive : c.sensitive ≡ ck_true ∷ []
  extractable : c.extractable ≡ ck_false ∷ []
  always_authenticate : c.always_authenticate ≡ ck_false ∷ []
  local : c.local ≡ ck_true ∷ []

key-Findable :
    (w : WindowsApi) (c : Key w) (a : ℕ) (v : Bytes)
    → HasFlags w c
    → key_get_attribute standard w c a ≡ some v
    → key_attr_matches standard w c a v ≡ true
unfolding key_get_attribute key_attr_matches
key-Findable w c a v flags h =
    let yes = bool_attr_matches_refl ck_true in
    let no = bool_attr_matches_refl ck_false in
    ground (arith, serial_number_matches_refl v, bytes_eq_refl v)

-- Whether a search for the value that an object answers of an attribute, if it answers one, finds
-- the object.
unfoldable pub finds : (k : Cryptoki) (w : WindowsApi) → Object Cert (Key w) Trust → ℕ → Bool
finds k w object a = elim (object_get_attribute k w object a) [
  | none ↦ true
  | some v ↦ object_matches k w object ((a, v) ∷ [])
]

module _ (o : ByteOrder) (w : WindowsApi) where
  cert_new-token :
      (c : w.CertContext) (new : Cert) → cert_new standard o w c ≡ ok new → new.token ≡ ck_true ∷ []
  unfolding cert_new
  cert_new-token c new h = ground arith

  trust_new-token :
      (c : w.CertContext) (new : Trust)
      → trust_new standard o w c ≡ ok new
      → new.token ≡ ck_true ∷ []
  unfolding trust_new
  trust_new-token c new h = ground arith

  key_new-HasFlags :
      (c : w.CertContext) (new : Key w) → key_new standard o w c ≡ ok new → HasFlags w new
  unfolding key_new
  key_new-HasFlags c new h = record {
    token = ground arith;
    private = ground arith;
    sign = ground arith;
    decrypt = ground arith;
    sensitive = ground arith;
    extractable = ground arith;
    always_authenticate = ground arith;
    local = ground arith;
  }

  module _ (a : ℕ) (supported : supports (supported_attributes standard) a ≡ true) where
    abbrev IsFound : Object Cert (Key w) Trust → Type 0
    IsFound object = finds standard w object a ≡ true

    cert_new-IsFound :
        (c : w.CertContext) (new : Cert) → cert_new standard o w c ≡ ok new → IsFound (cert new)
    unfolding finds object_get_attribute object_matches all_match
    cert_new-IsFound c new h = elim (Option-cases (cert_get_attribute standard new a)) [
      | inl e ↦ rw (e, finds) refl
      | inr (v, e) ↦ rw (e, cert-Findable new a v (cert_new-token c new h) e, finds) refl
    ]

    trust_new-IsFound :
        (c : w.CertContext) (new : Trust) → trust_new standard o w c ≡ ok new → IsFound (trust new)
    unfolding finds object_get_attribute object_matches all_match
    trust_new-IsFound c new h = elim (Option-cases (trust_get_attribute standard new a)) [
      | inl e ↦ rw (e, finds) refl
      | inr (v, e) ↦
          rw (e, trust-Findable new a v (trust_new-token c new h) supported e, finds) refl
    ]

    key_new-IsFound :
        (c : w.CertContext) (new : Key w) → key_new standard o w c ≡ ok new → IsFound (key new)
    unfolding finds object_get_attribute object_matches all_match
    key_new-IsFound c new h = elim (Option-cases (key_get_attribute standard w new a)) [
      | inl e ↦ rw (e, finds) refl
      | inr (v, e) ↦ rw (e, key-Findable w new a v (key_new-HasFlags c new h) e, finds) refl
    ]

    pair-IsFound : (c : w.CertContext) → All IsFound (pair standard o w c)
    unfolding pair
    pair-IsFound c = elim (Result-cases (cert_new standard o w c)) [
      | inl (_, e) ↦ rw (e, pair) tt
      | inr (new_cert, e) ↦ elim (Result-cases (key_new standard o w c)) [
        | inl (_, f) ↦ rw (e, f, pair) tt
        | inr (new_key, f) ↦
            rw (e, f, pair) (cert_new-IsFound c new_cert e, (key_new-IsFound c new_key f, tt))
      ]
    ]

    pairs-IsFound : (cs : List w.CertContext) → All IsFound (pairs standard o w cs)
    unfolding pairs
    pairs-IsFound [] = tt
    pairs-IsFound (c ∷ cs) = All-join _ (pair standard o w c) _ (pair-IsFound c) (pairs-IsFound cs)

    issuer_cert-IsFound : (c : w.CertContext) → All IsFound (issuer_cert standard o w c)
    unfolding issuer_cert
    issuer_cert-IsFound c = elim (Result-cases (cert_new standard o w c)) [
      | inl (_, e) ↦ rw (e, issuer_cert) tt
      | inr (new, e) ↦ rw (e, issuer_cert) (cert_new-IsFound c new e, tt)
    ]

    issuer_trust-IsFound :
        (os : w.Os) (c : w.CertContext) → All IsFound (issuer_trust standard o w os c)
    unfolding issuer_trust
    issuer_trust-IsFound os c = elim (Result-cases (trust_new standard o w c)) [
      | inl (_, e) ↦ rw e (ground arith)
      | inr (new, e) ↦ let found = trust_new-IsFound c new e in ground arith
    ]

    -- With the published numbers of the attribute types, each object that is listed on Windows is
    -- found by a search for the value that it answers of any supported attribute.
    pub list_objects-finds :
        (os : w.Os)
        → All (λ object. finds standard w object a ≡ true) (list_objects standard o w os)
    unfolding list_objects
    list_objects-finds os = elim (Option-cases (w.my_certs os)) [
      | inl e ↦ rw (e, list_objects) tt
      | inr (cs, e) ↦
          rw (e, list_objects)
            (All-join _ (pairs standard o w cs) _ (pairs-IsFound cs) (
              list_root_trust_objects-All standard o w os _ _
                (λ issuer above. (issuer_cert-IsFound issuer, issuer_trust-IsFound os issuer))))
    ]
