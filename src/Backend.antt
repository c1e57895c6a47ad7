-- ===== src/Backend.antt =====
-- The interface between the manager (src/manager.rs) and the platform backends
-- (src/backend_windows.rs, src/backend_macos.rs, src/backend_other.rs), of which one is compiled in.
-- A backend calls the operating system, whose state at the time of a call is an argument: the
-- same call may answer otherwise at another time, and encryption may be randomised.
pub mod Stub
pub mod Lengths
use osclientcerts.Prelude.{ℕ, Bool, Option, List, Bytes, Result}
use osclientcerts.Cryptoki.{Cryptoki, PssParams}
use osclientcerts.Mechanism.{RsaCipherMechanism}
use osclientcerts.Util.Errors.{CryptoError}

-- `enum Object`
pub data Object (Cert Key Trust : Type 0) : Type 0 where
  cert : Cert → Object Cert Key Trust
  key : Key → Object Cert Key Trust
  trust : Trust → Object Cert Key Trust

-- A template or a search: attribute types with values.
abbrev pub Attributes : Type 0
Attributes = List (ℕ × Bytes)

pub record Backend : Type 1 where
  -- The target that the backend is compiled for.
  pub cryptoki : Cryptoki
  pub on_windows : Bool
  -- The state of the operating system at the time of a call.
  pub Os : Type 0
  pub Cert : Type 0
  pub Key : Type 0
  pub Trust : Type 0
  -- `SUPPORTED_ATTRIBUTES`
  pub supported_attributes : List ℕ
  -- `Instant::now`, in nanoseconds.
  pub now : Os → ℕ
  pub list_objects : Os → List (Object Cert Key Trust)
  pub cert_id : Cert → Bytes
  pub key_id : Key → Bytes
  pub trust_id : Trust → Bytes
  pub matches : Object Cert Key Trust → Attributes → Bool
  pub get_attribute : Object Cert Key Trust → ℕ → Option Bytes
  pub get_signature_length : Os → Key → Bytes → Option PssParams → Result ℕ CryptoError
  pub sign : Os → Key → Bytes → Option PssParams → Result Bytes CryptoError
  pub decrypt_length : Os → Key → Bytes → RsaCipherMechanism → Result ℕ CryptoError
  pub decrypt : Os → Key → Bytes → RsaCipherMechanism → Result Bytes CryptoError
  pub cert_encrypt_length : Os → Cert → Bytes → RsaCipherMechanism → Result ℕ CryptoError
  pub cert_encrypt : Os → Cert → Bytes → RsaCipherMechanism → Result Bytes CryptoError
  pub key_encrypt_length : Os → Key → Bytes → RsaCipherMechanism → Result ℕ CryptoError
  pub key_encrypt : Os → Key → Bytes → RsaCipherMechanism → Result Bytes CryptoError

abbrev pub ObjectOf : Backend → Type 0
ObjectOf B = Object B.Cert B.Key B.Trust
