-- ===== src/Manager/Isolation.antt =====
-- A request that names one session leaves the operations of every other session alone.
use osclientcerts.Prelude.{ℕ, ◌≡◌, Bool, true, false, ◌==◌, sym, subst}
use osclientcerts.Backend.{Backend}
use osclientcerts.Manager.State.{Manager}
use osclientcerts.Manager.Queries.{
  same_get_attributes, same_get_signature_length, same_get_final_signature_length,
  same_get_decrypted_length, same_get_final_decrypted_length, same_get_encrypted_length,
  same_get_final_encrypted_length, same_get_session_info,
}
use osclientcerts.Manager.Requests.{ManagerArguments, dispatch}
use osclientcerts.Manager.Untouched.{
  SameAt, SameAt-refl, open_session-SameAt, close_session-SameAt, clear_search-SameAt,
  search-SameAt, start_search-SameAt, start_sign-SameAt, sign-SameAt, sign_final-SameAt,
  sign_update-SameAt, start_decrypt-SameAt, decrypt-SameAt, decrypt_final-SameAt,
  decrypt_update-SameAt, start_encrypt-SameAt, encrypt-SameAt, encrypt_final-SameAt,
  encrypt_update-SameAt,
}

-- The request names the session, or ends the operations of all sessions.
unfoldable pub touches : ManagerArguments → ℕ → Bool
touches (ManagerArguments.open_session a0) t = false
touches (ManagerArguments.close_session a0) t = a0 == t
touches ManagerArguments.close_all_sessions t = true
touches (ManagerArguments.start_search a0 a1) t = a0 == t
touches (ManagerArguments.search a0 a1) t = a0 == t
touches (ManagerArguments.clear_search a0) t = a0 == t
touches (ManagerArguments.get_attributes a0 a1) t = false
touches (ManagerArguments.start_sign a0 a1 a2) t = a0 == t
touches (ManagerArguments.get_signature_length a0 a1) t = a0 == t
touches (ManagerArguments.sign a0 a1) t = a0 == t
touches (ManagerArguments.sign_update a0 a1) t = a0 == t
touches (ManagerArguments.get_final_signature_length a0) t = a0 == t
touches (ManagerArguments.sign_final a0) t = a0 == t
touches (ManagerArguments.start_decrypt a0 a1 a2) t = a0 == t
touches (ManagerArguments.get_decrypted_length a0 a1) t = a0 == t
touches (ManagerArguments.decrypt a0 a1) t = a0 == t
touches (ManagerArguments.decrypt_update a0 a1) t = a0 == t
touches (ManagerArguments.get_final_decrypted_length a0) t = a0 == t
touches (ManagerArguments.decrypt_final a0) t = a0 == t
touches (ManagerArguments.start_encrypt a0 a1 a2) t = a0 == t
touches (ManagerArguments.get_encrypted_length a0 a1) t = a0 == t
touches (ManagerArguments.encrypt a0 a1) t = a0 == t
touches (ManagerArguments.encrypt_update a0 a1) t = a0 == t
touches (ManagerArguments.get_final_encrypted_length a0) t = a0 == t
touches (ManagerArguments.encrypt_final a0) t = a0 == t
touches (ManagerArguments.get_session_info a0) t = a0 == t
touches ManagerArguments.stop t = false

-- A request leaves the searches and operations of every session that it does not touch as they are.
pub dispatch-SameAt :
    (B : Backend) (os : B.Os) (request : ManagerArguments) (t : ℕ) (m : Manager B)
    → touches request t ≡ false
    → SameAt t m (dispatch B os request m).1
unfolding touches dispatch
dispatch-SameAt B os (ManagerArguments.open_session a0) t m h = open_session-SameAt B t m os a0
dispatch-SameAt B os (ManagerArguments.close_session a0) t m h = close_session-SameAt B t m a0 h
dispatch-SameAt B os ManagerArguments.close_all_sessions t m h = cc
dispatch-SameAt B os (ManagerArguments.start_search a0 a1) t m h =
    start_search-SameAt B t m a0 h os a1
dispatch-SameAt B os (ManagerArguments.search a0 a1) t m h = search-SameAt B t m a0 h a1
dispatch-SameAt B os (ManagerArguments.clear_search a0) t m h = clear_search-SameAt B t m a0 h
dispatch-SameAt B os (ManagerArguments.get_attributes a0 a1) t m h =
    subst (SameAt t m) (sym (same_get_attributes B os m a0 a1)) (SameAt-refl B t m)
dispatch-SameAt B os (ManagerArguments.start_sign a0 a1 a2) t m h =
    start_sign-SameAt B t m a0 h a1 a2
dispatch-SameAt B os (ManagerArguments.get_signature_length a0 a1) t m h =
    subst (SameAt t m) (sym (same_get_signature_length B os m a0 a1)) (SameAt-refl B t m)
dispatch-SameAt B os (ManagerArguments.sign a0 a1) t m h = sign-SameAt B t m a0 h os a1
dispatch-SameAt B os (ManagerArguments.sign_update a0 a1) t m h = sign_update-SameAt B t m a0 h a1
dispatch-SameAt B os (ManagerArguments.get_final_signature_length a0) t m h =
    subst (SameAt t m) (sym (same_get_final_signature_length B os m a0)) (SameAt-refl B t m)
dispatch-SameAt B os (ManagerArguments.sign_final a0) t m h = sign_final-SameAt B t m a0 h os
dispatch-SameAt B os (ManagerArguments.start_decrypt a0 a1 a2) t m h =
    start_decrypt-SameAt B t m a0 h a1 a2
dispatch-SameAt B os (ManagerArguments.get_decrypted_length a0 a1) t m h =
    subst (SameAt t m) (sym (same_get_decrypted_length B os m a0 a1)) (SameAt-refl B t m)
dispatch-SameAt B os (ManagerArguments.decrypt a0 a1) t m h = decrypt-SameAt B t m a0 h os a1
dispatch-SameAt B os (ManagerArguments.decrypt_update a0 a1) t m h =
    decrypt_update-SameAt B t m a0 h a1
dispatch-SameAt B os (ManagerArguments.get_final_decrypted_length a0) t m h =
    subst (SameAt t m) (sym (same_get_final_decrypted_length B os m a0)) (SameAt-refl B t m)
dispatch-SameAt B os (ManagerArguments.decrypt_final a0) t m h = decrypt_final-SameAt B t m a0 h os
dispatch-SameAt B os (ManagerArguments.start_encrypt a0 a1 a2) t m h =
    start_encrypt-SameAt B t m a0 h a1 a2
dispatch-SameAt B os (ManagerArguments.get_encrypted_length a0 a1) t m h =
    subst (SameAt t m) (sym (same_get_encrypted_length B os m a0 a1)) (SameAt-refl B t m)
dispatch-SameAt B os (ManagerArguments.encrypt a0 a1) t m h = encrypt-SameAt B t m a0 h os a1
dispatch-SameAt B os (ManagerArguments.encrypt_update a0 a1) t m h =
    encrypt_update-SameAt B t m a0 h a1
dispatch-SameAt B os (ManagerArguments.get_final_encrypted_length a0) t m h =
    subst (SameAt t m) (sym (same_get_final_encrypted_length B os m a0)) (SameAt-refl B t m)
dispatch-SameAt B os (ManagerArguments.encrypt_final a0) t m h = encrypt_final-SameAt B t m a0 h os
dispatch-SameAt B os (ManagerArguments.get_session_info a0) t m h =
    subst (SameAt t m) (sym (same_get_session_info B os m a0)) (SameAt-refl B t m)
dispatch-SameAt B os ManagerArguments.stop t m h = SameAt-refl B t m
