-- ===== src/Provider/Sessions.antt =====
-- src/lib.rs: C_OpenSession, C_CloseSession, C_CloseAllSessions and C_GetSessionInfo.
use Prim.Native.Nat.{bit_and, bit_or}
use osclientcerts.Prelude.{ℕ, Option, none, some, ok, err, ◌||◌, ◌==◌, ◌!=◌, if◌then◌else◌}
use osclientcerts.Cryptoki.{
  Rv, ckr_ok, ckr_arguments_bad, ckr_device_error, ckr_session_handle_invalid, is_null,
}
use osclientcerts.Backend.{Backend}
use osclientcerts.Proxy.Calls.{open_session, close_session, close_all_sessions, get_session_info}
use osclientcerts.Provider.{Outcome, returns, waits, faults, Provider, call_manager, status}

abbrev pub slot_id : ℕ
slot_id = 1

-- `CK_SESSION_INFO`
pub record SessionInfo : Type 0 where
  pub slot : ℕ
  pub state : ℕ
  pub flags : ℕ
  pub device_error : ℕ

module _ (B : Backend) where
  -- `phSession` points to a handle, which is overwritten.
  unfoldable pub c_open_session :
      B.Os → ℕ → ℕ → Option ℕ → Provider B → Outcome (Rv × Option ℕ × Provider B)
  unfolding is_null
  c_open_session os slot flags handle s =
      if slot != slot_id || is_null handle || bit_and flags B.cryptoki.ckf_serial_session == 0
      then returns (ckr_arguments_bad, handle, s)
      else elim (call_manager B (λ _. ckr_device_error) (open_session B os flags) s) [
        | waits ↦ waits
        | faults ↦ faults
        | returns (err rv, t) ↦ returns (rv, handle, t)
        | returns (ok session, t) ↦ returns (ckr_ok, some session, t)
      ]

  unfoldable pub c_close_session : B.Os → ℕ → Provider B → Outcome (Rv × Provider B)
  c_close_session os session s =
      status B (call_manager B (λ _. ckr_session_handle_invalid) (close_session B os session) s)

  unfoldable pub c_close_all_sessions : B.Os → ℕ → Provider B → Outcome (Rv × Provider B)
  c_close_all_sessions os slot s =
      if slot != slot_id
      then returns (ckr_arguments_bad, s)
      else status B (call_manager B (λ _. ckr_device_error) (close_all_sessions B os) s)

  -- The struct that is written for the flags that a session was opened with.
  unfoldable pub session_info : ℕ → SessionInfo
  session_info flags = record {
    slot = slot_id;
    state =
        if bit_and flags B.cryptoki.ckf_rw_session != 0
        then B.cryptoki.cks_rw_public_session
        else B.cryptoki.cks_ro_public_session;
    flags = bit_or flags B.cryptoki.ckf_serial_session;
    device_error = 0;
  }

  unfoldable pub c_get_session_info :
      B.Os → ℕ → Option SessionInfo → Provider B → Outcome (Rv × Option SessionInfo × Provider B)
  c_get_session_info os session none s = returns (ckr_arguments_bad, none, s)
  c_get_session_info os session (some info) s =
      elim (call_manager B (λ _. ckr_session_handle_invalid) (get_session_info B os session) s) [
        | waits ↦ waits
        | faults ↦ faults
        | returns (err rv, t) ↦ returns (rv, some info, t)
        | returns (ok flags, t) ↦ returns (ckr_ok, some (session_info flags), t)
      ]
