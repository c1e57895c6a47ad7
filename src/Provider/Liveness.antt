-- ===== src/Provider/Liveness.antt =====
-- No entry point waits for ever.
pub mod Sign
pub mod Decrypt
pub mod Encrypt
pub mod Sessions
pub mod Search
use osclientcerts.Prelude.{◌≡◌, refl, subst}
use osclientcerts.Backend.{Backend}
use osclientcerts.Proxy.Stopped.{stop-ends}
use osclientcerts.Proxy.{spawn}
use osclientcerts.Manager.Scan.{new}
use osclientcerts.Provider.{Provider, c_initialize, c_finalize}
use osclientcerts.Provider.Calls.{Call, run, Reachable, start, step}
use osclientcerts.Provider.Live.{IsSettled, unused, used, Lives}
use osclientcerts.Provider.Liveness.Sessions.{
  c_open_session-Lives, c_close_session-Lives, c_close_all_sessions-Lives, c_get_session_info-Lives,
}
use osclientcerts.Provider.Liveness.Search.{
  c_find_objects_init-Lives, c_find_objects-Lives, c_find_objects_final-Lives,
  c_get_attribute_value-Lives,
}
use osclientcerts.Provider.Liveness.Sign.{
  c_sign_init-Lives, c_sign-Lives, c_sign_update-Lives, c_sign_final-Lives,
}
use osclientcerts.Provider.Liveness.Decrypt.{
  c_decrypt_init-Lives, c_decrypt-Lives, c_decrypt_update-Lives, c_decrypt_final-Lives,
}
use osclientcerts.Provider.Liveness.Encrypt.{
  c_encrypt_init-Lives, c_encrypt-Lives, c_encrypt_update-Lives, c_encrypt_final-Lives,
}

module _ (B : Backend) where
  c_initialize-Lives : (os : B.Os) (s : Provider B) → IsSettled B s → Lives B (c_initialize B os s)
  unfolding c_initialize spawn
  c_initialize-Lives os _ unused = used (new B os)
  c_initialize-Lives os _ (used m) = used m

  c_finalize-Lives : (os : B.Os) (s : Provider B) → IsSettled B s → Lives B (c_finalize B os s)
  unfolding c_finalize
  c_finalize-Lives os _ unused = unused
  c_finalize-Lives os _ (used m) = rw (c_finalize, (stop-ends B os m).0) unused

  settled-Lives : (c : Call B) (s : Provider B) → IsSettled B s → Lives B (run B c s)
  unfolding run
  settled-Lives (Call.initialize os) s h = c_initialize-Lives os s h
  settled-Lives (Call.finalize os) s h = c_finalize-Lives os s h
  settled-Lives (Call.open_session os slot flags handle) s h =
      c_open_session-Lives B s h os slot flags handle
  settled-Lives (Call.close_session os session) s h = c_close_session-Lives B s h os session
  settled-Lives (Call.close_all_sessions os slot) s h = c_close_all_sessions-Lives B s h os slot
  settled-Lives (Call.get_session_info os session info) s h =
      c_get_session_info-Lives B s h os session info
  settled-Lives (Call.find_objects_init os session template count) s h =
      c_find_objects_init-Lives B s h os session template count
  settled-Lives (Call.find_objects os session memory max_count object_count) s h =
      c_find_objects-Lives B s h os session memory max_count object_count
  settled-Lives (Call.find_objects_final os session) s h =
      c_find_objects_final-Lives B s h os session
  settled-Lives (Call.get_attribute_value os object template count) s h =
      c_get_attribute_value-Lives B s h os object template count
  settled-Lives (Call.sign_init os session mechanism key_handle) s h =
      c_sign_init-Lives B s h os session mechanism key_handle
  settled-Lives (Call.sign os later session input input_len output) s h =
      c_sign-Lives B s h os later session input input_len output
  settled-Lives (Call.sign_update os session part part_len) s h =
      c_sign_update-Lives B s h os session part part_len
  settled-Lives (Call.sign_final os later session output) s h =
      c_sign_final-Lives B s h os later session output
  settled-Lives (Call.decrypt_init os session mechanism key_handle) s h =
      c_decrypt_init-Lives B s h os session mechanism key_handle
  settled-Lives (Call.decrypt os later session input input_len output) s h =
      c_decrypt-Lives B s h os later session input input_len output
  settled-Lives (Call.decrypt_update os session part part_len len) s h =
      c_decrypt_update-Lives B s h os session part part_len len
  settled-Lives (Call.decrypt_final os later session output) s h =
      c_decrypt_final-Lives B s h os later session output
  settled-Lives (Call.encrypt_init os session mechanism key_handle) s h =
      c_encrypt_init-Lives B s h os session mechanism key_handle
  settled-Lives (Call.encrypt os later session input input_len output) s h =
      c_encrypt-Lives B s h os later session input input_len output
  settled-Lives (Call.encrypt_update os session part part_len len) s h =
      c_encrypt_update-Lives B s h os session part part_len len
  settled-Lives (Call.encrypt_final os later session output) s h =
      c_encrypt_final-Lives B s h os later session output
  settled-Lives (Call.get_info default info) s h = h
  settled-Lives (Call.get_slot_list list count) s h = h
  settled-Lives (Call.get_slot_info default slot info) s h = h
  settled-Lives (Call.get_token_info default slot info) s h = h
  settled-Lives (Call.get_mechanism_list slot list count) s h = h
  settled-Lives (Call.get_mechanism_info slot mechanism_type info) s h = h
  settled-Lives (Call.logout session) s h = h
  settled-Lives (Call.unsupported f) s h = h

  Reachable-IsSettled : (s : Provider B) → Reachable B s → IsSettled B s
  Reachable-IsSettled _ start = unused
  Reachable-IsSettled _ (step {s = s} c rv t reachable e) =
      subst (Lives B) e (settled-Lives c s (Reachable-IsSettled s reachable))

  -- Whatever entry points were called before, with any arguments and whatever the system answered, no
  -- call of an entry point waits for ever; and if it returns, the provider is not initialised or
  -- its manager's thread waits for a request again, and the lock is not poisoned.
  pub run-Lives : (s : Provider B) (c : Call B) → Reachable B s → Lives B (run B c s)
  run-Lives s c reachable = settled-Lives c s (Reachable-IsSettled s reachable)
