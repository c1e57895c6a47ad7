-- ===== src/Provider/Calls.antt =====
-- src/lib.rs: the entry points of `FUNCTION_LIST`, as what a caller may call.
use osclientcerts.Prelude.{ℕ, ◌≡◌, false, Option, none, List, Bytes}
use osclientcerts.Cryptoki.{Rv, ckr_ok, CkMechanism}
use osclientcerts.Backend.{Backend}
use osclientcerts.Provider.{Outcome, returns, waits, faults, Provider, c_initialize, c_finalize}
use osclientcerts.Provider.Sessions.{
  c_open_session, c_close_session, c_close_all_sessions, c_get_session_info, SessionInfo,
}
use osclientcerts.Provider.Search.{
  c_find_objects_init, c_find_objects, c_find_objects_final, CkAttribute,
}
use osclientcerts.Provider.Attributes.{c_get_attribute_value}
use osclientcerts.Provider.Sign.{c_sign_init, c_sign, c_sign_update, c_sign_final}
use osclientcerts.Provider.Decrypt.{c_decrypt_init, c_decrypt, c_decrypt_update, c_decrypt_final}
use osclientcerts.Provider.Encrypt.{c_encrypt_init, c_encrypt, c_encrypt_update, c_encrypt_final}
use osclientcerts.Provider.Buffers.{Output}
use osclientcerts.Provider.Information.{
  Version, Info, SlotInfo, TokenInfo, MechanismInfo, c_get_info, c_get_slot_list, c_get_slot_info,
  c_get_token_info, c_get_mechanism_list, c_get_mechanism_info,
}
use osclientcerts.Provider.Unsupported.{Unsupported, c_unsupported}

-- An entry point with its arguments, and the states of the system that it meets.
pub data Call (B : Backend) : Type 0 where
  initialize : B.Os → Call B
  finalize : B.Os → Call B
  open_session : B.Os → ℕ → ℕ → Option ℕ → Call B
  close_session : B.Os → ℕ → Call B
  close_all_sessions : B.Os → ℕ → Call B
  get_session_info : B.Os → ℕ → Option SessionInfo → Call B
  find_objects_init : B.Os → ℕ → Option (List CkAttribute) → ℕ → Call B
  find_objects : B.Os → ℕ → Option (List ℕ) → ℕ → Option ℕ → Call B
  find_objects_final : B.Os → ℕ → Call B
  get_attribute_value : B.Os → ℕ → Option (List CkAttribute) → ℕ → Call B
  sign_init : B.Os → ℕ → Option CkMechanism → ℕ → Call B
  sign : B.Os → B.Os → ℕ → Option Bytes → ℕ → Option Output → Call B
  sign_update : B.Os → ℕ → Option Bytes → ℕ → Call B
  sign_final : B.Os → B.Os → ℕ → Option Output → Call B
  decrypt_init : B.Os → ℕ → Option CkMechanism → ℕ → Call B
  decrypt : B.Os → B.Os → ℕ → Option Bytes → ℕ → Option Output → Call B
  decrypt_update : B.Os → ℕ → Option Bytes → ℕ → Option ℕ → Call B
  decrypt_final : B.Os → B.Os → ℕ → Option Output → Call B
  encrypt_init : B.Os → ℕ → Option CkMechanism → ℕ → Call B
  encrypt : B.Os → B.Os → ℕ → Option Bytes → ℕ → Option Output → Call B
  encrypt_update : B.Os → ℕ → Option Bytes → ℕ → Option ℕ → Call B
  encrypt_final : B.Os → B.Os → ℕ → Option Output → Call B
  get_info : Info → Option Info → Call B
  get_slot_list : Option (List ℕ) → Option ℕ → Call B
  get_slot_info : Version → ℕ → Option SlotInfo → Call B
  get_token_info : TokenInfo → ℕ → Option TokenInfo → Call B
  get_mechanism_list : ℕ → Option (List ℕ) → Option ℕ → Call B
  get_mechanism_info : ℕ → ℕ → Option MechanismInfo → Call B
  logout : ℕ → Call B
  unsupported : Unsupported → Call B

-- The outcome without what is handed out.
abbrev pub settle :
    {A : Type 0} {B : Backend} → Outcome (Rv × A × Provider B) → Outcome (Rv × Provider B)
settle (returns (rv, _, s)) = returns (rv, s)
settle waits = waits
settle faults = faults

abbrev pub settle_both :
    {A C : Type 0} {B : Backend} → Outcome (Rv × A × C × Provider B) → Outcome (Rv × Provider B)
settle_both (returns (rv, _, _, s)) = returns (rv, s)
settle_both waits = waits
settle_both faults = faults

-- C_Logout, which does nothing.
unfoldable pub c_logout : ℕ → Rv
c_logout session = ckr_ok

module _ (B : Backend) where
  -- The code that a call returns, and the provider that it leaves.
  unfoldable pub run : Call B → Provider B → Outcome (Rv × Provider B)
  run (Call.initialize os) s = c_initialize B os s
  run (Call.finalize os) s = c_finalize B os s
  run (Call.open_session os slot flags handle) s = settle (c_open_session B os slot flags handle s)
  run (Call.close_session os session) s = c_close_session B os session s
  run (Call.close_all_sessions os slot) s = c_close_all_sessions B os slot s
  run (Call.get_session_info os session info) s = settle (c_get_session_info B os session info s)
  run (Call.find_objects_init os session template count) s =
      c_find_objects_init B os session template count s
  run (Call.find_objects os session memory max_count object_count) s =
      settle_both (c_find_objects B os session memory max_count object_count s)
  run (Call.find_objects_final os session) s = c_find_objects_final B os session s
  run (Call.get_attribute_value os object template count) s =
      settle (c_get_attribute_value B os object template count s)
  run (Call.sign_init os session mechanism key_handle) s =
      c_sign_init B os session mechanism key_handle s
  run (Call.sign os later session input input_len output) s =
      settle (c_sign B os later session input input_len output s)
  run (Call.sign_update os session part part_len) s = c_sign_update B os session part part_len s
  run (Call.sign_final os later session output) s =
      settle (c_sign_final B os later session output s)
  run (Call.decrypt_init os session mechanism key_handle) s =
      c_decrypt_init B os session mechanism key_handle s
  run (Call.decrypt os later session input input_len output) s =
      settle (c_decrypt B os later session input input_len output s)
  run (Call.decrypt_update os session part part_len len) s =
      settle (c_decrypt_update B os session part part_len len s)
  run (Call.decrypt_final os later session output) s =
      settle (c_decrypt_final B os later session output s)
  run (Call.encrypt_init os session mechanism key_handle) s =
      c_encrypt_init B os session mechanism key_handle s
  run (Call.encrypt os later session input input_len output) s =
      settle (c_encrypt B os later session input input_len output s)
  run (Call.encrypt_update os session part part_len len) s =
      settle (c_encrypt_update B os session part part_len len s)
  run (Call.encrypt_final os later session output) s =
      settle (c_encrypt_final B os later session output s)
  run (Call.get_info default info) s = returns ((c_get_info default info).0, s)
  run (Call.get_slot_list list count) s = returns ((c_get_slot_list list count).0, s)
  run (Call.get_slot_info default slot info) s =
      returns ((c_get_slot_info B.cryptoki default slot info).0, s)
  run (Call.get_token_info default slot info) s =
      returns ((c_get_token_info B.cryptoki default slot info).0, s)
  run (Call.get_mechanism_list slot list count) s =
      returns ((c_get_mechanism_list B.cryptoki slot list count).0, s)
  run (Call.get_mechanism_info slot mechanism_type info) s =
      returns ((c_get_mechanism_info B.cryptoki slot mechanism_type info).0, s)
  run (Call.logout session) s = returns (c_logout session, s)
  run (Call.unsupported f) s = returns (c_unsupported f, s)

-- The providers that calls lead to from the one that is not initialised.
pub data Reachable (B : Backend) : Provider B → Type 0 where
  start : Reachable B (record { poisoned = false; slot = none })
  step :
      {s : Provider B} (c : Call B) (rv : Rv) (t : Provider B)
      → Reachable B s
      → run B c s ≡ returns (rv, t)
      → Reachable B t
