-- ===== src/Proxy/Replies.antt =====
-- Which reply belongs to which request.
use osclientcerts.Prelude.{
  ℕ, ◌≡◌, refl, Bool, true, false, Option, some, List, [], ◌∷◌, Result, Bytes, ◌&&◌, arith,
}
use osclientcerts.Cryptoki.{PssParams}
use osclientcerts.Mechanism.{RsaCipherMechanism}
use osclientcerts.Util.Errors.{CryptoError}
use osclientcerts.Backend.{Backend, Attributes}
use osclientcerts.Manager.State.{Manager}
use osclientcerts.Manager.Requests.{ManagerArguments, ManagerReturnValue, dispatch}
use osclientcerts.Proxy.{stop_after_send, turn, serve}

-- The request and the reply carry the same name, and so the reply the result's type.
pub data IsReplyTo : ManagerArguments → ManagerReturnValue → Type 0 where
  open_session :
      (a0 : ℕ) (r : Result ℕ Unit)
      → IsReplyTo (ManagerArguments.open_session a0) (ManagerReturnValue.open_session r)
  close_session :
      (a0 : ℕ) (r : Result (Unit {0}) Unit)
      → IsReplyTo (ManagerArguments.close_session a0) (ManagerReturnValue.close_session r)
  close_all_sessions :
      (r : Result (Unit {0}) Unit)
      → IsReplyTo ManagerArguments.close_all_sessions (ManagerReturnValue.close_all_sessions r)
  start_search :
      (a0 : ℕ) (a1 : Attributes) (r : Result (Unit {0}) Unit)
      → IsReplyTo (ManagerArguments.start_search a0 a1) (ManagerReturnValue.start_search r)
  search :
      (a0 : ℕ) (a1 : ℕ) (r : Result (List ℕ) Unit)
      → IsReplyTo (ManagerArguments.search a0 a1) (ManagerReturnValue.search r)
  clear_search :
      (a0 : ℕ) (r : Result (Unit {0}) Unit)
      → IsReplyTo (ManagerArguments.clear_search a0) (ManagerReturnValue.clear_search r)
  get_attributes :
      (a0 : ℕ) (a1 : List ℕ) (r : Result (List (Option Bytes)) Unit)
      → IsReplyTo (ManagerArguments.get_attributes a0 a1) (ManagerReturnValue.get_attributes r)
  start_sign :
      (a0 : ℕ) (a1 : ℕ) (a2 : Option PssParams) (r : Result (Unit {0}) CryptoError)
      → IsReplyTo (ManagerArguments.start_sign a0 a1 a2) (ManagerReturnValue.start_sign r)
  get_signature_length :
      (a0 : ℕ) (a1 : Bytes) (r : Result ℕ CryptoError)
      → IsReplyTo
          (ManagerArguments.get_signature_length a0 a1)
          (ManagerReturnValue.get_signature_length r)
  sign :
      (a0 : ℕ) (a1 : Bytes) (r : Result Bytes CryptoError)
      → IsReplyTo (ManagerArguments.sign a0 a1) (ManagerReturnValue.sign r)
  sign_update :
      (a0 : ℕ) (a1 : Bytes) (r : Result (Unit {0}) CryptoError)
      → IsReplyTo (ManagerArguments.sign_update a0 a1) (ManagerReturnValue.sign_update r)
  get_final_signature_length :
      (a0 : ℕ) (r : Result ℕ CryptoError)
      → IsReplyTo
          (ManagerArguments.get_final_signature_length a0)
          (ManagerReturnValue.get_final_signature_length r)
  sign_final :
      (a0 : ℕ) (r : Result Bytes CryptoError)
      → IsReplyTo (ManagerArguments.sign_final a0) (ManagerReturnValue.sign_final r)
  start_decrypt :
      (a0 : ℕ) (a1 : ℕ) (a2 : RsaCipherMechanism) (r : Result (Unit {0}) CryptoError)
      → IsReplyTo (ManagerArguments.start_decrypt a0 a1 a2) (ManagerReturnValue.start_decrypt r)
  get_decrypted_length :
      (a0 : ℕ) (a1 : Bytes) (r : Result ℕ CryptoError)
      → IsReplyTo
          (ManagerArguments.get_decrypted_length a0 a1)
          (ManagerReturnValue.get_decrypted_length r)
  decrypt :
      (a0 : ℕ) (a1 : Bytes) (r : Result Bytes CryptoError)
      → IsReplyTo (ManagerArguments.decrypt a0 a1) (ManagerReturnValue.decrypt r)
  decrypt_update :
      (a0 : ℕ) (a1 : Bytes) (r : Result (Unit {0}) CryptoError)
      → IsReplyTo (ManagerArguments.decrypt_update a0 a1) (ManagerReturnValue.decrypt_update r)
  get_final_decrypted_length :
      (a0 : ℕ) (r : Result ℕ CryptoError)
      → IsReplyTo
          (ManagerArguments.get_final_decrypted_length a0)
          (ManagerReturnValue.get_final_decrypted_length r)
  decrypt_final :
      (a0 : ℕ) (r : Result Bytes CryptoError)
      → IsReplyTo (ManagerArguments.decrypt_final a0) (ManagerReturnValue.decrypt_final r)
  start_encrypt :
      (a0 : ℕ) (a1 : ℕ) (a2 : RsaCipherMechanism) (r : Result (Unit {0}) CryptoError)
      → IsReplyTo (ManagerArguments.start_encrypt a0 a1 a2) (ManagerReturnValue.start_encrypt r)
  get_encrypted_length :
      (a0 : ℕ) (a1 : Bytes) (r : Result ℕ CryptoError)
      → IsReplyTo
          (ManagerArguments.get_encrypted_length a0 a1)
          (ManagerReturnValue.get_encrypted_length r)
  encrypt :
      (a0 : ℕ) (a1 : Bytes) (r : Result Bytes CryptoError)
      → IsReplyTo (ManagerArguments.encrypt a0 a1) (ManagerReturnValue.encrypt r)
  encrypt_update :
      (a0 : ℕ) (a1 : Bytes) (r : Result (Unit {0}) CryptoError)
      → IsReplyTo (ManagerArguments.encrypt_update a0 a1) (ManagerReturnValue.encrypt_update r)
  get_final_encrypted_length :
      (a0 : ℕ) (r : Result ℕ CryptoError)
      → IsReplyTo
          (ManagerArguments.get_final_encrypted_length a0)
          (ManagerReturnValue.get_final_encrypted_length r)
  encrypt_final :
      (a0 : ℕ) (r : Result Bytes CryptoError)
      → IsReplyTo (ManagerArguments.encrypt_final a0) (ManagerReturnValue.encrypt_final r)
  get_session_info :
      (a0 : ℕ) (r : Result ℕ Unit)
      → IsReplyTo (ManagerArguments.get_session_info a0) (ManagerReturnValue.get_session_info r)
  stop : (r : Result (Unit {0}) Unit) → IsReplyTo ManagerArguments.stop (ManagerReturnValue.stop r)

-- One reply for each request, in the same order.
pub data AreRepliesTo : List ManagerArguments → List ManagerReturnValue → Type 0 where
  no_request : AreRepliesTo [] []
  request :
      (a : ManagerArguments) (v : ManagerReturnValue) (requests : List ManagerArguments)
      (replies : List ManagerReturnValue)
      → IsReplyTo a v
      → AreRepliesTo requests replies
      → AreRepliesTo (a ∷ requests) (v ∷ replies)

-- A request that does not end the thread.
unfoldable pub goes_on : ManagerArguments → Bool
goes_on ManagerArguments.stop = false
goes_on _ = true

unfoldable pub all_go_on : List ManagerArguments → Bool
all_go_on [] = true
all_go_on (a ∷ requests) = goes_on a && all_go_on requests

module _ (B : Backend) (os : B.Os) where
  dispatch-IsReplyTo : (a : ManagerArguments) (m : Manager B) → IsReplyTo a (dispatch B os a m).0
  unfolding dispatch
  dispatch-IsReplyTo (ManagerArguments.open_session a0) m = IsReplyTo.open_session _ _
  dispatch-IsReplyTo (ManagerArguments.close_session a0) m = IsReplyTo.close_session _ _
  dispatch-IsReplyTo ManagerArguments.close_all_sessions m = IsReplyTo.close_all_sessions _
  dispatch-IsReplyTo (ManagerArguments.start_search a0 a1) m = IsReplyTo.start_search _ _ _
  dispatch-IsReplyTo (ManagerArguments.search a0 a1) m = IsReplyTo.search _ _ _
  dispatch-IsReplyTo (ManagerArguments.clear_search a0) m = IsReplyTo.clear_search _ _
  dispatch-IsReplyTo (ManagerArguments.get_attributes a0 a1) m = IsReplyTo.get_attributes _ _ _
  dispatch-IsReplyTo (ManagerArguments.start_sign a0 a1 a2) m = IsReplyTo.start_sign _ _ _ _
  dispatch-IsReplyTo (ManagerArguments.get_signature_length a0 a1) m =
      IsReplyTo.get_signature_length _ _ _
  dispatch-IsReplyTo (ManagerArguments.sign a0 a1) m = IsReplyTo.sign _ _ _
  dispatch-IsReplyTo (ManagerArguments.sign_update a0 a1) m = IsReplyTo.sign_update _ _ _
  dispatch-IsReplyTo (ManagerArguments.get_final_signature_length a0) m =
      IsReplyTo.get_final_signature_length _ _
  dispatch-IsReplyTo (ManagerArguments.sign_final a0) m = IsReplyTo.sign_final _ _
  dispatch-IsReplyTo (ManagerArguments.start_decrypt a0 a1 a2) m = IsReplyTo.start_decrypt _ _ _ _
  dispatch-IsReplyTo (ManagerArguments.get_decrypted_length a0 a1) m =
      IsReplyTo.get_decrypted_length _ _ _
  dispatch-IsReplyTo (ManagerArguments.decrypt a0 a1) m = IsReplyTo.decrypt _ _ _
  dispatch-IsReplyTo (ManagerArguments.decrypt_update a0 a1) m = IsReplyTo.decrypt_update _ _ _
  dispatch-IsReplyTo (ManagerArguments.get_final_decrypted_length a0) m =
      IsReplyTo.get_final_decrypted_length _ _
  dispatch-IsReplyTo (ManagerArguments.decrypt_final a0) m = IsReplyTo.decrypt_final _ _
  dispatch-IsReplyTo (ManagerArguments.start_encrypt a0 a1 a2) m = IsReplyTo.start_encrypt _ _ _ _
  dispatch-IsReplyTo (ManagerArguments.get_encrypted_length a0 a1) m =
      IsReplyTo.get_encrypted_length _ _ _
  dispatch-IsReplyTo (ManagerArguments.encrypt a0 a1) m = IsReplyTo.encrypt _ _ _
  dispatch-IsReplyTo (ManagerArguments.encrypt_update a0 a1) m = IsReplyTo.encrypt_update _ _ _
  dispatch-IsReplyTo (ManagerArguments.get_final_encrypted_length a0) m =
      IsReplyTo.get_final_encrypted_length _ _
  dispatch-IsReplyTo (ManagerArguments.encrypt_final a0) m = IsReplyTo.encrypt_final _ _
  dispatch-IsReplyTo (ManagerArguments.get_session_info a0) m = IsReplyTo.get_session_info _ _
  dispatch-IsReplyTo ManagerArguments.stop m = IsReplyTo.stop _

  reply-goes_on :
      (a : ManagerArguments) (v : ManagerReturnValue)
      → goes_on a ≡ true
      → IsReplyTo a v
      → stop_after_send v ≡ false
  unfolding goes_on stop_after_send
  reply-goes_on _ _ h (IsReplyTo.open_session _ _) = refl
  reply-goes_on _ _ h (IsReplyTo.close_session _ _) = refl
  reply-goes_on _ _ h (IsReplyTo.close_all_sessions _) = refl
  reply-goes_on _ _ h (IsReplyTo.start_search _ _ _) = refl
  reply-goes_on _ _ h (IsReplyTo.search _ _ _) = refl
  reply-goes_on _ _ h (IsReplyTo.clear_search _ _) = refl
  reply-goes_on _ _ h (IsReplyTo.get_attributes _ _ _) = refl
  reply-goes_on _ _ h (IsReplyTo.start_sign _ _ _ _) = refl
  reply-goes_on _ _ h (IsReplyTo.get_signature_length _ _ _) = refl
  reply-goes_on _ _ h (IsReplyTo.sign _ _ _) = refl
  reply-goes_on _ _ h (IsReplyTo.sign_update _ _ _) = refl
  reply-goes_on _ _ h (IsReplyTo.get_final_signature_length _ _) = refl
  reply-goes_on _ _ h (IsReplyTo.sign_final _ _) = refl
  reply-goes_on _ _ h (IsReplyTo.start_decrypt _ _ _ _) = refl
  reply-goes_on _ _ h (IsReplyTo.get_decrypted_length _ _ _) = refl
  reply-goes_on _ _ h (IsReplyTo.decrypt _ _ _) = refl
  reply-goes_on _ _ h (IsReplyTo.decrypt_update _ _ _) = refl
  reply-goes_on _ _ h (IsReplyTo.get_final_decrypted_length _ _) = refl
  reply-goes_on _ _ h (IsReplyTo.decrypt_final _ _) = refl
  reply-goes_on _ _ h (IsReplyTo.start_encrypt _ _ _ _) = refl
  reply-goes_on _ _ h (IsReplyTo.get_encrypted_length _ _ _) = refl
  reply-goes_on _ _ h (IsReplyTo.encrypt _ _ _) = refl
  reply-goes_on _ _ h (IsReplyTo.encrypt_update _ _ _) = refl
  reply-goes_on _ _ h (IsReplyTo.get_final_encrypted_length _ _) = refl
  reply-goes_on _ _ h (IsReplyTo.encrypt_final _ _) = refl
  reply-goes_on _ _ h (IsReplyTo.get_session_info _ _) = refl
  reply-goes_on _ _ h (IsReplyTo.stop _) = cc

  -- The manager's thread takes all requests of a queue without a stop off the channel, and answers
  -- each in turn with the reply of its kind; and it goes on.
  pub serve-AreRepliesTo :
      (requests : List ManagerArguments) (m : Manager B)
      → all_go_on requests ≡ true
      → (replies : List ManagerReturnValue) × (after : Manager B) × (serve B os requests (some m)
          ≡ ([], replies, some after))
        × AreRepliesTo requests replies
  unfolding serve turn all_go_on
  serve-AreRepliesTo [] m h = ([], m, refl, no_request)
  serve-AreRepliesTo (a ∷ requests) m h =
      let here = dispatch-IsReplyTo a m in
      let (replies, after, e, all) =
        serve-AreRepliesTo requests (dispatch B os a m).1 (ground arith) in
      (
        (dispatch B os a m).0 ∷ replies,
        after,
        rw (reply-goes_on a (dispatch B os a m).0 (ground arith) here, e) refl,
        request a (dispatch B os a m).0 requests replies here all,
      )
