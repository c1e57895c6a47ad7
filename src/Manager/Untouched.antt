-- ===== src/Manager/Untouched.antt =====
-- What each method leaves alone: the operations of the sessions that it does not name.
use osclientcerts.Prelude.{
  ℕ, ◌≡◌, refl, false, not, Option, List, [], Bytes, ◌==◌, arith, inl, inr, Bool-cases, ap,
}
use osclientcerts.Cryptoki.{PssParams}
use osclientcerts.Mechanism.{RsaCipherMechanism}
use osclientcerts.BTreeMap
use osclientcerts.BTreeMap.{BTreeMap, get, contains_key}
use osclientcerts.BTreeMap.Laws.{get-insert, get-remove}
use osclientcerts.Backend.{Backend, Attributes}
use osclientcerts.Manager.State.{Manager}
use osclientcerts.Manager.Scan
use osclientcerts.Manager.Scan.{three_seconds, maybe_find_new_objects}
use osclientcerts.Manager.Search
use osclientcerts.Manager.Search.{all_supported, split_at, rescan_interval, gather_handles}
use osclientcerts.Manager.Sign
use osclientcerts.Manager.Decrypt
use osclientcerts.Manager.Encrypt
use osclientcerts.Manager.Frame.{SameSessions-scan}
use osclientcerts.Manager.Invariant.Searches.{gather_handles-cases}

-- The operations of one session are the same in both managers.
pub record SameAt {B : Backend} (t : ℕ) (m n : Manager B) : Type 0 where
  pub searches : get n.searches t ≡ get m.searches t
  pub signs : get n.signs t ≡ get m.signs t
  pub decrypts : get n.decrypts t ≡ get m.decrypts t
  pub encrypts : get n.encrypts t ≡ get m.encrypts t

module _ (B : Backend) (t : ℕ) (m : Manager B) where
  pub SameAt-refl : SameAt t m m
  SameAt-refl = record { searches = refl; signs = refl; decrypts = refl; encrypts = refl }

  pub SameAt-scan : (os : B.Os) (interval : ℕ) → SameAt t m (maybe_find_new_objects B os interval m)
  SameAt-scan os interval =
      let same = SameSessions-scan B os interval m in
      record {
        searches = ap (λ x. get x t) same.searches;
        signs = ap (λ x. get x t) same.signs;
        decrypts = ap (λ x. get x t) same.decrypts;
        encrypts = ap (λ x. get x t) same.encrypts;
      }

  pub open_session-SameAt : (os : B.Os) (flags : ℕ) → SameAt t m (Scan.open_session B os flags m).1
  unfolding Scan.open_session
  open_session-SameAt os flags =
      let same = SameAt-scan os three_seconds in
      record {
        searches = same.searches;
        signs = same.signs;
        decrypts = same.decrypts;
        encrypts = same.encrypts;
      }

  module _ (s : ℕ) (other : (s == t) ≡ false) where
    pub close_session-SameAt : SameAt t m (Scan.close_session B s m).1
    unfolding Scan.close_session
    close_session-SameAt = ground (
      arith,
      get-remove m.searches s t,
      get-remove m.signs s t,
      get-remove m.decrypts s t,
      get-remove m.encrypts s t,
    )

    pub clear_search-SameAt : SameAt t m (Search.clear_search B s m).1
    unfolding Search.clear_search
    clear_search-SameAt = ground (arith, get-remove m.searches s t)

    pub search-SameAt : (max_objects : ℕ) → SameAt t m (Search.search B s max_objects m).1
    unfolding Search.search
    search-SameAt max_objects = grind (arith, get-insert)

    pub searching-SameAt :
        (n : Manager B) (handles : List ℕ)
        → SameAt t m n
        → SameAt t m (record n { searches = BTreeMap.insert n.searches s handles })
    searching-SameAt n handles same = ground (arith, get-insert n.searches s handles t)

    pub start_search-SameAt :
        (os : B.Os) (attrs : Attributes) → SameAt t m (Search.start_search B os s attrs m).1
    unfolding Search.start_search
    start_search-SameAt os attrs = elim (Bool-cases (contains_key m.searches s)) [
      | inl active ↦ rw active SameAt-refl
      | inr idle ↦ elim (Bool-cases (not (all_supported B.supported_attributes attrs))) [
        | inl unsupported ↦ rw (idle, unsupported) (searching-SameAt m [] SameAt-refl)
        | inr supported ↦
            rw (idle, supported)
              (elim (gather_handles-cases B os attrs m) [
                | inl e ↦ rw e (searching-SameAt m _ SameAt-refl)
                | inr e ↦ rw e (searching-SameAt _ _ (SameAt-scan os rescan_interval))
              ])
      ]
    ]

    pub start_sign-SameAt :
        (handle : ℕ) (params : Option PssParams)
        → SameAt t m (Sign.start_sign B s handle params m).1
    unfolding Sign.start_sign
    start_sign-SameAt handle params =
        ground
          (arith, get-insert m.signs s (record { handle = handle; params = params; buffer = [] }) t)

    pub sign-SameAt : (os : B.Os) (bytes : Bytes) → SameAt t m (Sign.sign B os s bytes m).1
    unfolding Sign.sign
    sign-SameAt os bytes = ground (arith, get-remove m.signs s t)

    pub sign_final-SameAt : (os : B.Os) → SameAt t m (Sign.sign_final B os s m).1
    unfolding Sign.sign_final
    sign_final-SameAt os = ground (arith, get-remove m.signs s t)

    pub sign_update-SameAt : (bytes : Bytes) → SameAt t m (Sign.sign_update B s bytes m).1
    unfolding Sign.sign_update
    sign_update-SameAt bytes = grind (arith, get-insert)

    pub start_decrypt-SameAt :
        (handle : ℕ) (params : RsaCipherMechanism)
        → SameAt t m (Decrypt.start_decrypt B s handle params m).1
    unfolding Decrypt.start_decrypt
    start_decrypt-SameAt handle params = ground (
      arith,
      get-insert m.decrypts s (record { handle = handle; params = params; buffer = [] }) t,
    )

    pub decrypt-SameAt : (os : B.Os) (bytes : Bytes) → SameAt t m (Decrypt.decrypt B os s bytes m).1
    unfolding Decrypt.decrypt
    decrypt-SameAt os bytes = ground (arith, get-remove m.decrypts s t)

    pub decrypt_final-SameAt : (os : B.Os) → SameAt t m (Decrypt.decrypt_final B os s m).1
    unfolding Decrypt.decrypt_final
    decrypt_final-SameAt os = ground (arith, get-remove m.decrypts s t)

    pub decrypt_update-SameAt : (bytes : Bytes) → SameAt t m (Decrypt.decrypt_update B s bytes m).1
    unfolding Decrypt.decrypt_update
    decrypt_update-SameAt bytes = grind (arith, get-insert)

    pub start_encrypt-SameAt :
        (handle : ℕ) (params : RsaCipherMechanism)
        → SameAt t m (Encrypt.start_encrypt B s handle params m).1
    unfolding Encrypt.start_encrypt
    start_encrypt-SameAt handle params = ground (
      arith,
      get-insert m.encrypts s (record { handle = handle; params = params; buffer = [] }) t,
    )

    pub encrypt-SameAt : (os : B.Os) (bytes : Bytes) → SameAt t m (Encrypt.encrypt B os s bytes m).1
    unfolding Encrypt.encrypt
    encrypt-SameAt os bytes = ground (arith, get-remove m.encrypts s t)

    pub encrypt_final-SameAt : (os : B.Os) → SameAt t m (Encrypt.encrypt_final B os s m).1
    unfolding Encrypt.encrypt_final
    encrypt_final-SameAt os = ground (arith, get-remove m.encrypts s t)

    pub encrypt_update-SameAt : (bytes : Bytes) → SameAt t m (Encrypt.encrypt_update B s bytes m).1
    unfolding Encrypt.encrypt_update
    encrypt_update-SameAt bytes = grind (arith, get-insert)
