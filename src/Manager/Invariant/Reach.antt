-- ===== src/Manager/Invariant/Reach.antt =====
-- Every request keeps the invariant, so it holds of every manager that requests can lead to.
use osclientcerts.Prelude.{◌+◌, ◌<◌, subst, sym}
use osclientcerts.Backend.{Backend}
use osclientcerts.Manager.State.{Manager, empty}
use osclientcerts.Manager.Scan.{new}
use osclientcerts.Manager.Queries.{
  same_get_attributes, same_get_signature_length, same_get_final_signature_length,
  same_get_decrypted_length, same_get_final_decrypted_length, same_get_encrypted_length,
  same_get_final_encrypted_length, same_get_session_info,
}
use osclientcerts.Manager.Requests.{ManagerArguments, dispatch}
use osclientcerts.Manager.Invariant.{IsValid}
use osclientcerts.Manager.Invariant.Scan.{HasRoom}
use osclientcerts.Manager.Invariant.Sessions.{
  new-IsValid, close_session-IsValid, close_all_sessions-IsValid, clear_search-IsValid,
}
use osclientcerts.Manager.Invariant.Searches.{
  open_session-IsValid, start_search-IsValid, search-IsValid,
}
use osclientcerts.Manager.Invariant.Sign
use osclientcerts.Manager.Invariant.Decrypt
use osclientcerts.Manager.Invariant.Encrypt

module _ (B : Backend) where
  -- Neither counter will wrap round during the next request.
  pub record CanCount (os : B.Os) (m : Manager B) : Type 0 where
    pub objects : HasRoom B os m
    pub sessions : m.next_session + 1 < B.cryptoki.ulong_mod

  pub dispatch-IsValid :
      (os : B.Os) (request : ManagerArguments) (m : Manager B)
      → CanCount os m
      → IsValid B m
      → IsValid B (dispatch B os request m).1
  unfolding dispatch
  dispatch-IsValid os (ManagerArguments.open_session a0) m c v =
      open_session-IsValid B m v os a0 c.objects c.sessions
  dispatch-IsValid os (ManagerArguments.close_session a0) m c v = close_session-IsValid B m v a0
  dispatch-IsValid os ManagerArguments.close_all_sessions m c v = close_all_sessions-IsValid B m v
  dispatch-IsValid os (ManagerArguments.start_search a0 a1) m c v =
      start_search-IsValid B m os a0 a1 v c.objects
  dispatch-IsValid os (ManagerArguments.search a0 a1) m c v = search-IsValid B m v a0 a1
  dispatch-IsValid os (ManagerArguments.clear_search a0) m c v = clear_search-IsValid B m v a0
  dispatch-IsValid os (ManagerArguments.get_attributes a0 a1) m c v =
      subst (IsValid B) (sym (same_get_attributes B os m a0 a1)) v
  dispatch-IsValid os (ManagerArguments.start_sign a0 a1 a2) m c v =
      Sign.start_sign-IsValid B m v a0 a1 a2
  dispatch-IsValid os (ManagerArguments.get_signature_length a0 a1) m c v =
      subst (IsValid B) (sym (same_get_signature_length B os m a0 a1)) v
  dispatch-IsValid os (ManagerArguments.sign a0 a1) m c v = Sign.sign-IsValid B m v os a0 a1
  dispatch-IsValid os (ManagerArguments.sign_update a0 a1) m c v =
      Sign.sign_update-IsValid B m v a0 a1
  dispatch-IsValid os (ManagerArguments.get_final_signature_length a0) m c v =
      subst (IsValid B) (sym (same_get_final_signature_length B os m a0)) v
  dispatch-IsValid os (ManagerArguments.sign_final a0) m c v = Sign.sign_final-IsValid B m v os a0
  dispatch-IsValid os (ManagerArguments.start_decrypt a0 a1 a2) m c v =
      Decrypt.start_decrypt-IsValid B m v a0 a1 a2
  dispatch-IsValid os (ManagerArguments.get_decrypted_length a0 a1) m c v =
      subst (IsValid B) (sym (same_get_decrypted_length B os m a0 a1)) v
  dispatch-IsValid os (ManagerArguments.decrypt a0 a1) m c v =
      Decrypt.decrypt-IsValid B m v os a0 a1
  dispatch-IsValid os (ManagerArguments.decrypt_update a0 a1) m c v =
      Decrypt.decrypt_update-IsValid B m v a0 a1
  dispatch-IsValid os (ManagerArguments.get_final_decrypted_length a0) m c v =
      subst (IsValid B) (sym (same_get_final_decrypted_length B os m a0)) v
  dispatch-IsValid os (ManagerArguments.decrypt_final a0) m c v =
      Decrypt.decrypt_final-IsValid B m v os a0
  dispatch-IsValid os (ManagerArguments.start_encrypt a0 a1 a2) m c v =
      Encrypt.start_encrypt-IsValid B m v a0 a1 a2
  dispatch-IsValid os (ManagerArguments.get_encrypted_length a0 a1) m c v =
      subst (IsValid B) (sym (same_get_encrypted_length B os m a0 a1)) v
  dispatch-IsValid os (ManagerArguments.encrypt a0 a1) m c v =
      Encrypt.encrypt-IsValid B m v os a0 a1
  dispatch-IsValid os (ManagerArguments.encrypt_update a0 a1) m c v =
      Encrypt.encrypt_update-IsValid B m v a0 a1
  dispatch-IsValid os (ManagerArguments.get_final_encrypted_length a0) m c v =
      subst (IsValid B) (sym (same_get_final_encrypted_length B os m a0)) v
  dispatch-IsValid os (ManagerArguments.encrypt_final a0) m c v =
      Encrypt.encrypt_final-IsValid B m v os a0
  dispatch-IsValid os (ManagerArguments.get_session_info a0) m c v =
      subst (IsValid B) (sym (same_get_session_info B os m a0)) v
  dispatch-IsValid os ManagerArguments.stop m c v = v

  -- The managers that requests can lead to, while the counters do not wrap round: the operating
  -- system may answer anything at any time.
  pub data Reachable : Manager B → Type 0 where
    start : (os : B.Os) → HasRoom B os (empty B) → Reachable (new B os)
    step :
        {m : Manager B} (os : B.Os) (request : ManagerArguments)
        → Reachable m
        → CanCount os m
        → Reachable (dispatch B os request m).1

  -- Every manager that requests can lead to is valid, while the counters do not wrap round.
  pub Reachable-IsValid : {m : Manager B} → Reachable m → IsValid B m
  Reachable-IsValid (start os room) = new-IsValid B os room
  Reachable-IsValid (step {m = m} os request r c) =
      dispatch-IsValid os request m c (Reachable-IsValid r)
