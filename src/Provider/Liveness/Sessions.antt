-- ===== src/Provider/Liveness/Sessions.antt =====
-- The entry points of sessions do not wait for ever.
use Prim.Native.Nat.{bit_and}
use osclientcerts.Prelude.{
  ℕ, Option, none, some, ◌==◌, ◌!=◌, ◌||◌, inl, inr, Result-cases, Bool-cases,
}
use osclientcerts.Cryptoki.{ckr_device_error, ckr_session_handle_invalid, is_null}
use osclientcerts.Backend.{Backend}
use osclientcerts.Manager.Scan
use osclientcerts.Proxy.Calls
use osclientcerts.Proxy.Identical.{proxy-IsIdentical}
use osclientcerts.Provider.{Provider}
use osclientcerts.Provider.Calls.{settle}
use osclientcerts.Provider.Live.{
  IsSettled, Lives, Serves, call_manager-Returns, status-Lives, guard-Lives,
}
use osclientcerts.Provider.Sessions.{
  slot_id, SessionInfo, c_open_session, c_close_session, c_close_all_sessions, c_get_session_info,
}

module _ (B : Backend) (os : B.Os) where
  open_session-Serves : (flags : ℕ) → Serves B (Calls.open_session B os flags)
  open_session-Serves flags m = (
    (Scan.open_session B os flags m).0,
    (Scan.open_session B os flags m).1,
    (proxy-IsIdentical B os m).open_session flags,
  )

  close_session-Serves : (session : ℕ) → Serves B (Calls.close_session B os session)
  close_session-Serves session m = (
    (Scan.close_session B session m).0,
    (Scan.close_session B session m).1,
    (proxy-IsIdentical B os m).close_session session,
  )

  close_all_sessions-Serves : Serves B (Calls.close_all_sessions B os)
  close_all_sessions-Serves m = (
    (Scan.close_all_sessions B m).0,
    (Scan.close_all_sessions B m).1,
    (proxy-IsIdentical B os m).close_all_sessions,
  )

  get_session_info-Serves : (session : ℕ) → Serves B (Calls.get_session_info B os session)
  get_session_info-Serves session m = (
    (Scan.get_session_info B session m).0,
    (Scan.get_session_info B session m).1,
    (proxy-IsIdentical B os m).get_session_info session,
  )

module _ (B : Backend) (s : Provider B) (h : IsSettled B s) where
  pub c_close_session-Lives : (os : B.Os) (session : ℕ) → Lives B (c_close_session B os session s)
  unfolding c_close_session
  c_close_session-Lives os session =
      status-Lives B _ (call_manager-Returns B _ _ (close_session-Serves B os session) s h)

  pub c_close_all_sessions-Lives :
      (os : B.Os) (slot : ℕ) → Lives B (c_close_all_sessions B os slot s)
  unfolding c_close_all_sessions
  c_close_all_sessions-Lives os slot =
      guard-Lives B (slot != slot_id) _ _ h
        (status-Lives B _ (call_manager-Returns B _ _ (close_all_sessions-Serves B os) s h))

  pub c_open_session-Lives :
      (os : B.Os) (slot flags : ℕ) (handle : Option ℕ)
      → Lives B (settle (c_open_session B os slot flags handle s))
  unfolding c_open_session is_null
  c_open_session-Lives os slot flags handle =
      let r =
        call_manager-Returns B (λ _. ckr_device_error) (Calls.open_session B os flags)
          (open_session-Serves B os flags) s h in
      let refused =
        slot != slot_id || is_null handle || bit_and flags B.cryptoki.ckf_serial_session == 0 in
      elim (Bool-cases refused) [
        | inl bad ↦ rw (c_open_session, bad) h
        | inr good ↦ elim (Result-cases r.result) [
          | inl (rv, e) ↦ rw (c_open_session, good, r.same, e) r.settled
          | inr (session, e) ↦ rw (c_open_session, good, r.same, e) r.settled
        ]
      ]

  pub c_get_session_info-Lives :
      (os : B.Os) (session : ℕ) (info : Option SessionInfo)
      → Lives B (settle (c_get_session_info B os session info s))
  unfolding c_get_session_info
  c_get_session_info-Lives os session none = h
  c_get_session_info-Lives os session (some info) =
      let r =
        call_manager-Returns B (λ _. ckr_session_handle_invalid)
          (Calls.get_session_info B os session) (get_session_info-Serves B os session) s h in
      elim (Result-cases r.result) [
        | inl (rv, e) ↦ rw (c_get_session_info, r.same, e) r.settled
        | inr (flags, e) ↦ rw (c_get_session_info, r.same, e) r.settled
      ]
