-- ===== src/Manager/Permanent.antt =====
-- Objects keep their handles for as long as the manager lives.
use osclientcerts.Prelude.{ℕ, ◌≡◌, subst, sym, Option, Bytes, arith, not, inl, inr, Bool-cases}
use osclientcerts.Cryptoki.{PssParams}
use osclientcerts.Mechanism.{RsaCipherMechanism}
use osclientcerts.BTreeMap.{contains_key}
use osclientcerts.BTreeMap.Values.{Grows, Grows-refl}
use osclientcerts.Backend.{Backend, Attributes}
use osclientcerts.Manager.State.{Manager}
use osclientcerts.Manager.Scan
use osclientcerts.Manager.Scan.{three_seconds}
use osclientcerts.Manager.Search
use osclientcerts.Manager.Search.{all_supported, rescan_interval}
use osclientcerts.Manager.Sign
use osclientcerts.Manager.Decrypt
use osclientcerts.Manager.Encrypt
use osclientcerts.Manager.Queries.{
  same_get_attributes, same_get_signature_length, same_get_final_signature_length,
  same_get_decrypted_length, same_get_final_decrypted_length, same_get_encrypted_length,
  same_get_final_encrypted_length, same_get_session_info,
}
use osclientcerts.Manager.Requests.{ManagerArguments, dispatch}
use osclientcerts.Manager.Invariant.{IsValid}
use osclientcerts.Manager.Invariant.Scan.{HasRoom, maybe_find_new_objects-Grows}
use osclientcerts.Manager.Invariant.Searches.{gather_handles-cases}
use osclientcerts.Manager.Invariant.Reach.{CanCount}

module _ (B : Backend) (m : Manager B) where
  objects-close_session : (a0 : ℕ) → (Scan.close_session B a0 m).1.objects ≡ m.objects
  unfolding Scan.close_session
  objects-close_session a0 = ground arith

  objects-close_all_sessions : (Scan.close_all_sessions B m).1.objects ≡ m.objects
  unfolding Scan.close_all_sessions
  objects-close_all_sessions = ground arith

  objects-search : (a0 : ℕ) (a1 : ℕ) → (Search.search B a0 a1 m).1.objects ≡ m.objects
  unfolding Search.search
  objects-search a0 a1 = ground arith

  objects-clear_search : (a0 : ℕ) → (Search.clear_search B a0 m).1.objects ≡ m.objects
  unfolding Search.clear_search
  objects-clear_search a0 = ground arith

  pub objects-start_sign :
      (a0 : ℕ) (a1 : ℕ) (a2 : Option PssParams)
      → (Sign.start_sign B a0 a1 a2 m).1.objects ≡ m.objects
  unfolding Sign.start_sign
  objects-start_sign a0 a1 a2 = ground arith

  objects-sign : (os : B.Os) (a0 : ℕ) (a1 : Bytes) → (Sign.sign B os a0 a1 m).1.objects ≡ m.objects
  unfolding Sign.sign
  objects-sign os a0 a1 = ground arith

  objects-sign_update : (a0 : ℕ) (a1 : Bytes) → (Sign.sign_update B a0 a1 m).1.objects ≡ m.objects
  unfolding Sign.sign_update
  objects-sign_update a0 a1 = ground arith

  objects-sign_final : (os : B.Os) (a0 : ℕ) → (Sign.sign_final B os a0 m).1.objects ≡ m.objects
  unfolding Sign.sign_final
  objects-sign_final os a0 = ground arith

  pub objects-start_decrypt :
      (a0 : ℕ) (a1 : ℕ) (a2 : RsaCipherMechanism)
      → (Decrypt.start_decrypt B a0 a1 a2 m).1.objects ≡ m.objects
  unfolding Decrypt.start_decrypt
  objects-start_decrypt a0 a1 a2 = ground arith

  objects-decrypt :
      (os : B.Os) (a0 : ℕ) (a1 : Bytes) → (Decrypt.decrypt B os a0 a1 m).1.objects ≡ m.objects
  unfolding Decrypt.decrypt
  objects-decrypt os a0 a1 = ground arith

  objects-decrypt_update :
      (a0 : ℕ) (a1 : Bytes) → (Decrypt.decrypt_update B a0 a1 m).1.objects ≡ m.objects
  unfolding Decrypt.decrypt_update
  objects-decrypt_update a0 a1 = ground arith

  objects-decrypt_final :
      (os : B.Os) (a0 : ℕ) → (Decrypt.decrypt_final B os a0 m).1.objects ≡ m.objects
  unfolding Decrypt.decrypt_final
  objects-decrypt_final os a0 = ground arith

  objects-start_encrypt :
      (a0 : ℕ) (a1 : ℕ) (a2 : RsaCipherMechanism)
      → (Encrypt.start_encrypt B a0 a1 a2 m).1.objects ≡ m.objects
  unfolding Encrypt.start_encrypt
  objects-start_encrypt a0 a1 a2 = ground arith

  objects-encrypt :
      (os : B.Os) (a0 : ℕ) (a1 : Bytes) → (Encrypt.encrypt B os a0 a1 m).1.objects ≡ m.objects
  unfolding Encrypt.encrypt
  objects-encrypt os a0 a1 = ground arith

  objects-encrypt_update :
      (a0 : ℕ) (a1 : Bytes) → (Encrypt.encrypt_update B a0 a1 m).1.objects ≡ m.objects
  unfolding Encrypt.encrypt_update
  objects-encrypt_update a0 a1 = ground arith

  objects-encrypt_final :
      (os : B.Os) (a0 : ℕ) → (Encrypt.encrypt_final B os a0 m).1.objects ≡ m.objects
  unfolding Encrypt.encrypt_final
  objects-encrypt_final os a0 = ground arith

  module _ (os : B.Os) (v : IsValid B m) (room : HasRoom B os m) where
    open_session-Grows : (flags : ℕ) → Grows m.objects (Scan.open_session B os flags m).1.objects
    unfolding Scan.open_session
    open_session-Grows flags = maybe_find_new_objects-Grows B os three_seconds m v room

    start_search-Grows :
        (session : ℕ) (attrs : Attributes)
        → Grows m.objects (Search.start_search B os session attrs m).1.objects
    unfolding Search.start_search
    start_search-Grows session attrs = elim (Bool-cases (contains_key m.searches session)) [
      | inl active ↦ rw active (Grows-refl m.objects)
      | inr idle ↦ elim (Bool-cases (not (all_supported B.supported_attributes attrs))) [
        | inl unsupported ↦ rw (idle, unsupported) (Grows-refl m.objects)
        | inr supported ↦
            rw (idle, supported)
              (elim (gather_handles-cases B os attrs m) [
                | inl e ↦ rw e (Grows-refl m.objects)
                | inr e ↦ rw e (maybe_find_new_objects-Grows B os rescan_interval m v room)
              ])
      ]
    ]

-- No request takes an object away or gives its handle to another, while the counters do not wrap
-- round: what a handle names it names after any request.
pub dispatch-Grows :
    (B : Backend) (os : B.Os) (request : ManagerArguments) (m : Manager B)
    → CanCount B os m
    → IsValid B m
    → Grows m.objects (dispatch B os request m).1.objects
unfolding dispatch
dispatch-Grows B os (ManagerArguments.open_session a0) m c v =
    open_session-Grows B m os v c.objects a0
dispatch-Grows B os (ManagerArguments.close_session a0) m c v =
    subst (Grows m.objects) (sym (objects-close_session B m a0)) (Grows-refl m.objects)
dispatch-Grows B os ManagerArguments.close_all_sessions m c v =
    subst (Grows m.objects) (sym (objects-close_all_sessions B m)) (Grows-refl m.objects)
dispatch-Grows B os (ManagerArguments.start_search a0 a1) m c v =
    start_search-Grows B m os v c.objects a0 a1
dispatch-Grows B os (ManagerArguments.search a0 a1) m c v =
    subst (Grows m.objects) (sym (objects-search B m a0 a1)) (Grows-refl m.objects)
dispatch-Grows B os (ManagerArguments.clear_search a0) m c v =
    subst (Grows m.objects) (sym (objects-clear_search B m a0)) (Grows-refl m.objects)
dispatch-Grows B os (ManagerArguments.get_attributes a0 a1) m c v =
    subst (λ (x : Manager B). Grows m.objects x.objects) (sym (same_get_attributes B os m a0 a1))
      (Grows-refl m.objects)
dispatch-Grows B os (ManagerArguments.start_sign a0 a1 a2) m c v =
    subst (Grows m.objects) (sym (objects-start_sign B m a0 a1 a2)) (Grows-refl m.objects)
dispatch-Grows B os (ManagerArguments.get_signature_length a0 a1) m c v =
    subst (λ (x : Manager B). Grows m.objects x.objects)
      (sym (same_get_signature_length B os m a0 a1)) (Grows-refl m.objects)
dispatch-Grows B os (ManagerArguments.sign a0 a1) m c v =
    subst (Grows m.objects) (sym (objects-sign B m os a0 a1)) (Grows-refl m.objects)
dispatch-Grows B os (ManagerArguments.sign_update a0 a1) m c v =
    subst (Grows m.objects) (sym (objects-sign_update B m a0 a1)) (Grows-refl m.objects)
dispatch-Grows B os (ManagerArguments.get_final_signature_length a0) m c v =
    subst (λ (x : Manager B). Grows m.objects x.objects)
      (sym (same_get_final_signature_length B os m a0)) (Grows-refl m.objects)
dispatch-Grows B os (ManagerArguments.sign_final a0) m c v =
    subst (Grows m.objects) (sym (objects-sign_final B m os a0)) (Grows-refl m.objects)
dispatch-Grows B os (ManagerArguments.start_decrypt a0 a1 a2) m c v =
    subst (Grows m.objects) (sym (objects-start_decrypt B m a0 a1 a2)) (Grows-refl m.objects)
dispatch-Grows B os (ManagerArguments.get_decrypted_length a0 a1) m c v =
    subst (λ (x : Manager B). Grows m.objects x.objects)
      (sym (same_get_decrypted_length B os m a0 a1)) (Grows-refl m.objects)
dispatch-Grows B os (ManagerArguments.decrypt a0 a1) m c v =
    subst (Grows m.objects) (sym (objects-decrypt B m os a0 a1)) (Grows-refl m.objects)
dispatch-Grows B os (ManagerArguments.decrypt_update a0 a1) m c v =
    subst (Grows m.objects) (sym (objects-decrypt_update B m a0 a1)) (Grows-refl m.objects)
dispatch-Grows B os (ManagerArguments.get_final_decrypted_length a0) m c v =
    subst (λ (x : Manager B). Grows m.objects x.objects)
      (sym (same_get_final_decrypted_length B os m a0)) (Grows-refl m.objects)
dispatch-Grows B os (ManagerArguments.decrypt_final a0) m c v =
    subst (Grows m.objects) (sym (objects-decrypt_final B m os a0)) (Grows-refl m.objects)
dispatch-Grows B os (ManagerArguments.start_encrypt a0 a1 a2) m c v =
    subst (Grows m.objects) (sym (objects-start_encrypt B m a0 a1 a2)) (Grows-refl m.objects)
dispatch-Grows B os (ManagerArguments.get_encrypted_length a0 a1) m c v =
    subst (λ (x : Manager B). Grows m.objects x.objects)
      (sym (same_get_encrypted_length B os m a0 a1)) (Grows-refl m.objects)
dispatch-Grows B os (ManagerArguments.encrypt a0 a1) m c v =
    subst (Grows m.objects) (sym (objects-encrypt B m os a0 a1)) (Grows-refl m.objects)
dispatch-Grows B os (ManagerArguments.encrypt_update a0 a1) m c v =
    subst (Grows m.objects) (sym (objects-encrypt_update B m a0 a1)) (Grows-refl m.objects)
dispatch-Grows B os (ManagerArguments.get_final_encrypted_length a0) m c v =
    subst (λ (x : Manager B). Grows m.objects x.objects)
      (sym (same_get_final_encrypted_length B os m a0)) (Grows-refl m.objects)
dispatch-Grows B os (ManagerArguments.encrypt_final a0) m c v =
    subst (Grows m.objects) (sym (objects-encrypt_final B m os a0)) (Grows-refl m.objects)
dispatch-Grows B os (ManagerArguments.get_session_info a0) m c v =
    subst (λ (x : Manager B). Grows m.objects x.objects) (sym (same_get_session_info B os m a0))
      (Grows-refl m.objects)
dispatch-Grows B os ManagerArguments.stop m c v = Grows-refl m.objects
