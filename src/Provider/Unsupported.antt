-- ===== src/Provider/Unsupported.antt =====
-- src/lib.rs: the entry points that a PKCS #11 module has to have and this one does not support. Their
-- arguments are never read.
use osclientcerts.Cryptoki.{Rv, ckr_function_not_supported}

-- Tokens and their PINs.
pub data TokenFunction : Type 0 where
  init_token : TokenFunction
  init_pin : TokenFunction
  set_pin : TokenFunction

unfoldable pub c_token_function : TokenFunction → Rv
c_token_function TokenFunction.init_token = ckr_function_not_supported
c_token_function TokenFunction.init_pin = ckr_function_not_supported
c_token_function TokenFunction.set_pin = ckr_function_not_supported

-- The state of an operation, and logging in.
pub data SessionFunction : Type 0 where
  get_operation_state : SessionFunction
  set_operation_state : SessionFunction
  login : SessionFunction

unfoldable pub c_session_function : SessionFunction → Rv
c_session_function SessionFunction.get_operation_state = ckr_function_not_supported
c_session_function SessionFunction.set_operation_state = ckr_function_not_supported
c_session_function SessionFunction.login = ckr_function_not_supported

-- Changing objects.
pub data ObjectFunction : Type 0 where
  create_object : ObjectFunction
  copy_object : ObjectFunction
  destroy_object : ObjectFunction
  get_object_size : ObjectFunction

unfoldable pub c_object_function : ObjectFunction → Rv
c_object_function ObjectFunction.create_object = ckr_function_not_supported
c_object_function ObjectFunction.copy_object = ckr_function_not_supported
c_object_function ObjectFunction.destroy_object = ckr_function_not_supported
c_object_function ObjectFunction.get_object_size = ckr_function_not_supported

-- Changing an attribute.
pub data AttributeFunction : Type 0 where
  set_attribute_value : AttributeFunction

unfoldable pub c_attribute_function : AttributeFunction → Rv
c_attribute_function AttributeFunction.set_attribute_value = ckr_function_not_supported

-- Digests.
pub data DigestFunction : Type 0 where
  digest_init : DigestFunction
  digest : DigestFunction
  digest_update : DigestFunction
  digest_key : DigestFunction
  digest_final : DigestFunction

unfoldable pub c_digest_function : DigestFunction → Rv
c_digest_function DigestFunction.digest_init = ckr_function_not_supported
c_digest_function DigestFunction.digest = ckr_function_not_supported
c_digest_function DigestFunction.digest_update = ckr_function_not_supported
c_digest_function DigestFunction.digest_key = ckr_function_not_supported
c_digest_function DigestFunction.digest_final = ckr_function_not_supported

-- Signatures with recovery, and verification.
pub data VerifyFunction : Type 0 where
  sign_recover_init : VerifyFunction
  sign_recover : VerifyFunction
  verify_init : VerifyFunction
  verify : VerifyFunction
  verify_update : VerifyFunction
  verify_final : VerifyFunction
  verify_recover_init : VerifyFunction
  verify_recover : VerifyFunction

unfoldable pub c_verify_function : VerifyFunction → Rv
c_verify_function VerifyFunction.sign_recover_init = ckr_function_not_supported
c_verify_function VerifyFunction.sign_recover = ckr_function_not_supported
c_verify_function VerifyFunction.verify_init = ckr_function_not_supported
c_verify_function VerifyFunction.verify = ckr_function_not_supported
c_verify_function VerifyFunction.verify_update = ckr_function_not_supported
c_verify_function VerifyFunction.verify_final = ckr_function_not_supported
c_verify_function VerifyFunction.verify_recover_init = ckr_function_not_supported
c_verify_function VerifyFunction.verify_recover = ckr_function_not_supported

-- Two operations at a time.
pub data DualFunction : Type 0 where
  digest_encrypt_update : DualFunction
  decrypt_digest_update : DualFunction
  sign_encrypt_update : DualFunction
  decrypt_verify_update : DualFunction

unfoldable pub c_dual_function : DualFunction → Rv
c_dual_function DualFunction.digest_encrypt_update = ckr_function_not_supported
c_dual_function DualFunction.decrypt_digest_update = ckr_function_not_supported
c_dual_function DualFunction.sign_encrypt_update = ckr_function_not_supported
c_dual_function DualFunction.decrypt_verify_update = ckr_function_not_supported

-- Making keys.
pub data KeyManagementFunction : Type 0 where
  generate_key : KeyManagementFunction
  generate_key_pair : KeyManagementFunction
  wrap_key : KeyManagementFunction
  unwrap_key : KeyManagementFunction
  derive_key : KeyManagementFunction

unfoldable pub c_key_management_function : KeyManagementFunction → Rv
c_key_management_function KeyManagementFunction.generate_key = ckr_function_not_supported
c_key_management_function KeyManagementFunction.generate_key_pair = ckr_function_not_supported
c_key_management_function KeyManagementFunction.wrap_key = ckr_function_not_supported
c_key_management_function KeyManagementFunction.unwrap_key = ckr_function_not_supported
c_key_management_function KeyManagementFunction.derive_key = ckr_function_not_supported

-- Random numbers, parallel functions and slot events.
pub data OtherFunction : Type 0 where
  seed_random : OtherFunction
  generate_random : OtherFunction
  get_function_status : OtherFunction
  cancel_function : OtherFunction
  wait_for_slot_event : OtherFunction

unfoldable pub c_other_function : OtherFunction → Rv
c_other_function OtherFunction.seed_random = ckr_function_not_supported
c_other_function OtherFunction.generate_random = ckr_function_not_supported
c_other_function OtherFunction.get_function_status = ckr_function_not_supported
c_other_function OtherFunction.cancel_function = ckr_function_not_supported
c_other_function OtherFunction.wait_for_slot_event = ckr_function_not_supported

pub data Unsupported : Type 0 where
  token : TokenFunction → Unsupported
  session : SessionFunction → Unsupported
  object : ObjectFunction → Unsupported
  attribute : AttributeFunction → Unsupported
  digest : DigestFunction → Unsupported
  verify : VerifyFunction → Unsupported
  dual : DualFunction → Unsupported
  key_management : KeyManagementFunction → Unsupported
  other : OtherFunction → Unsupported

unfoldable pub c_unsupported : Unsupported → Rv
c_unsupported (Unsupported.token f) = c_token_function f
c_unsupported (Unsupported.session f) = c_session_function f
c_unsupported (Unsupported.object f) = c_object_function f
c_unsupported (Unsupported.attribute f) = c_attribute_function f
c_unsupported (Unsupported.digest f) = c_digest_function f
c_unsupported (Unsupported.verify f) = c_verify_function f
c_unsupported (Unsupported.dual f) = c_dual_function f
c_unsupported (Unsupported.key_management f) = c_key_management_function f
c_unsupported (Unsupported.other f) = c_other_function f
