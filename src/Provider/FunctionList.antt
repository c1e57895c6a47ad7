-- ===== src/Provider/FunctionList.antt =====
-- src/lib.rs: `FUNCTION_LIST` and C_GetFunctionList, which hands it out.
use osclientcerts.Prelude.{Option, none, some}
use osclientcerts.Cryptoki.{Rv, ckr_ok, ckr_arguments_bad}

-- The functions of PKCS #11, in the order of `CK_FUNCTION_LIST`.
pub data Function : Type 0 where
  initialize : Function
  finalize : Function
  get_info : Function
  get_function_list : Function
  get_slot_list : Function
  get_slot_info : Function
  get_token_info : Function
  get_mechanism_list : Function
  get_mechanism_info : Function
  init_token : Function
  init_pin : Function
  set_pin : Function
  open_session : Function
  close_session : Function
  close_all_sessions : Function
  get_session_info : Function
  get_operation_state : Function
  set_operation_state : Function
  login : Function
  logout : Function
  create_object : Function
  copy_object : Function
  destroy_object : Function
  get_object_size : Function
  get_attribute_value : Function
  set_attribute_value : Function
  find_objects_init : Function
  find_objects : Function
  find_objects_final : Function
  encrypt_init : Function
  encrypt : Function
  encrypt_update : Function
  encrypt_final : Function
  decrypt_init : Function
  decrypt : Function
  decrypt_update : Function
  decrypt_final : Function
  digest_init : Function
  digest : Function
  digest_update : Function
  digest_key : Function
  digest_final : Function
  sign_init : Function
  sign : Function
  sign_update : Function
  sign_final : Function
  sign_recover_init : Function
  sign_recover : Function
  verify_init : Function
  verify : Function
  verify_update : Function
  verify_final : Function
  verify_recover_init : Function
  verify_recover : Function
  digest_encrypt_update : Function
  decrypt_digest_update : Function
  sign_encrypt_update : Function
  decrypt_verify_update : Function
  generate_key : Function
  generate_key_pair : Function
  wrap_key : Function
  unwrap_key : Function
  derive_key : Function
  seed_random : Function
  generate_random : Function
  get_function_status : Function
  cancel_function : Function
  wait_for_slot_event : Function

-- What stands in the list under the name of a function.
unfoldable pub function_list : Function → Option Function
function_list Function.initialize = some Function.initialize
function_list Function.finalize = some Function.finalize
function_list Function.get_info = some Function.get_info
function_list Function.get_function_list = none
function_list Function.get_slot_list = some Function.get_slot_list
function_list Function.get_slot_info = some Function.get_slot_info
function_list Function.get_token_info = some Function.get_token_info
function_list Function.get_mechanism_list = some Function.get_mechanism_list
function_list Function.get_mechanism_info = some Function.get_mechanism_info
function_list Function.init_token = some Function.init_token
function_list Function.init_pin = some Function.init_pin
function_list Function.set_pin = some Function.set_pin
function_list Function.open_session = some Function.open_session
function_list Function.close_session = some Function.close_session
function_list Function.close_all_sessions = some Function.close_all_sessions
function_list Function.get_session_info = some Function.get_session_info
function_list Function.get_operation_state = some Function.get_operation_state
function_list Function.set_operation_state = some Function.set_operation_state
function_list Function.login = some Function.login
function_list Function.logout = some Function.logout
function_list Function.create_object = some Function.create_object
function_list Function.copy_object = some Function.copy_object
function_list Function.destroy_object = some Function.destroy_object
function_list Function.get_object_size = some Function.get_object_size
function_list Function.get_attribute_value = some Function.get_attribute_value
function_list Function.set_attribute_value = some Function.set_attribute_value
function_list Function.find_objects_init = some Function.find_objects_init
function_list Function.find_objects = some Function.find_objects
function_list Function.find_objects_final = some Function.find_objects_final
function_list Function.encrypt_init = some Function.encrypt_init
function_list Function.encrypt = some Function.encrypt
function_list Function.encrypt_update = some Function.encrypt_update
function_list Function.encrypt_final = some Function.encrypt_final
function_list Function.decrypt_init = some Function.decrypt_init
function_list Function.decrypt = some Function.decrypt
function_list Function.decrypt_update = some Function.decrypt_update
function_list Function.decrypt_final = some Function.decrypt_final
function_list Function.digest_init = some Function.digest_init
function_list Function.digest = some Function.digest
function_list Function.digest_update = some Function.digest_update
function_list Function.digest_key = some Function.digest_key
function_list Function.digest_final = some Function.digest_final
function_list Function.sign_init = some Function.sign_init
function_list Function.sign = some Function.sign
function_list Function.sign_update = some Function.sign_update
function_list Function.sign_final = some Function.sign_final
function_list Function.sign_recover_init = some Function.sign_recover_init
function_list Function.sign_recover = some Function.sign_recover
function_list Function.verify_init = some Function.verify_init
function_list Function.verify = some Function.verify
function_list Function.verify_update = some Function.verify_update
function_list Function.verify_final = some Function.verify_final
function_list Function.verify_recover_init = some Function.verify_recover_init
function_list Function.verify_recover = some Function.verify_recover
function_list Function.digest_encrypt_update = some Function.digest_encrypt_update
function_list Function.decrypt_digest_update = some Function.decrypt_digest_update
function_list Function.sign_encrypt_update = some Function.sign_encrypt_update
function_list Function.decrypt_verify_update = some Function.decrypt_verify_update
function_list Function.generate_key = some Function.generate_key
function_list Function.generate_key_pair = some Function.generate_key_pair
function_list Function.wrap_key = some Function.wrap_key
function_list Function.unwrap_key = some Function.unwrap_key
function_list Function.derive_key = some Function.derive_key
function_list Function.seed_random = some Function.seed_random
function_list Function.generate_random = some Function.generate_random
function_list Function.get_function_status = some Function.get_function_status
function_list Function.cancel_function = some Function.cancel_function
function_list Function.wait_for_slot_event = some Function.wait_for_slot_event

-- The pointer that C_GetFunctionList writes, if it has a place for it.
unfoldable pub c_get_function_list :
    Option (Option (Function → Option Function)) → Rv × Option (Option (Function → Option Function))
c_get_function_list none = (ckr_arguments_bad, none)
c_get_function_list (some _) = (ckr_ok, some (some function_list))
