-- ===== src/Util/Errors.antt =====
-- src/util.rs: `CryptoError`, its conversion to PKCS #11 codes, and the bound on buffered data.
use osclientcerts.Prelude.{ℕ, ◌*◌, Bool, ◌&&◌, ◌||◌, ◌==◌, if◌then◌else◌}
use osclientcerts.Cryptoki.{
  Rv, ckr_function_failed, ckr_key_handle_invalid, ckr_encrypted_data_invalid, ckr_data_len_range,
  ckr_buffer_too_small, ckr_arguments_bad, ckr_function_not_supported, ckr_device_error,
}

abbrev pub max_total_operation_data_len : ℕ
max_total_operation_data_len = 64 * 1024

pub data CryptoError : Type 0 where
  operation_failed : CryptoError
  invalid_key : CryptoError
  invalid_data : CryptoError
  data_too_large : CryptoError
  buffer_too_small : ℕ → CryptoError
  windows : ℕ → CryptoError

-- `impl From<()> for CryptoError`
abbrev pub from_unit : Unit {0} → CryptoError
from_unit _ = operation_failed

abbrev pub nte_bad_key : ℕ
nte_bad_key = 0x8009_0003

abbrev pub nte_bad_data : ℕ
nte_bad_data = 0x8009_0005

abbrev pub nte_bad_algid : ℕ
nte_bad_algid = 0x8009_0008

abbrev pub nte_bad_flags : ℕ
nte_bad_flags = 0x8009_0009

abbrev pub nte_bad_key_state : ℕ
nte_bad_key_state = 0x8009_000B

abbrev pub nte_no_key : ℕ
nte_no_key = 0x8009_000D

abbrev pub nte_perm : ℕ
nte_perm = 0x8009_0010

abbrev pub nte_bad_keyset : ℕ
nte_bad_keyset = 0x8009_0016

abbrev pub nte_invalid_parameter : ℕ
nte_invalid_parameter = 0x8009_0027

abbrev pub nte_buffer_too_small : ℕ
nte_buffer_too_small = 0x8009_0028

abbrev pub nte_not_supported : ℕ
nte_not_supported = 0x8009_0029

-- The inner `match *status`: the first four arms exist only on Windows.
status_to_rv : Bool → ℕ → Rv
status_to_rv on_windows s =
    if on_windows
      && (s == nte_no_key
          || s == nte_bad_key
          || s == nte_bad_keyset
          || s == nte_bad_key_state
          || s == nte_perm)
    then ckr_key_handle_invalid
    else if on_windows && s == nte_bad_data
    then ckr_encrypted_data_invalid
    else if on_windows && (s == nte_invalid_parameter || s == nte_bad_flags)
    then ckr_arguments_bad
    else if on_windows && s == nte_buffer_too_small
    then ckr_buffer_too_small
    else if on_windows && (s == nte_bad_algid || s == nte_not_supported)
    then ckr_function_not_supported
    else ckr_device_error

-- The log line is left out.
unfoldable pub crypto_error_to_rv : Bool → CryptoError → Rv
unfolding status_to_rv
crypto_error_to_rv on_windows operation_failed = ckr_function_failed
crypto_error_to_rv on_windows invalid_key = ckr_key_handle_invalid
crypto_error_to_rv on_windows invalid_data = ckr_encrypted_data_invalid
crypto_error_to_rv on_windows data_too_large = ckr_data_len_range
crypto_error_to_rv on_windows (buffer_too_small _) = ckr_buffer_too_small
crypto_error_to_rv on_windows (windows status) = status_to_rv on_windows status
