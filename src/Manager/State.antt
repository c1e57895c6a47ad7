-- ===== src/Manager/State.antt =====
-- src/manager.rs: the state of the `Manager` and the values that it hands out.
use osclientcerts.Prelude.{ℕ, ◌+◌, ◌%◌, Option, none, some, List, [], Result, ok, err, Bytes}
use osclientcerts.Cryptoki.{PssParams}
use osclientcerts.Mechanism.{RsaCipherMechanism}
use osclientcerts.BTreeMap.{BTreeMap}
use osclientcerts.Backend.{Backend, ObjectOf, cert, key, trust}
use osclientcerts.Util.Errors.{CryptoError, invalid_key}

-- The triple that is kept for an active operation: the object, the parameters, and the data that
-- multipart updates have accumulated.
pub record Operation (P : Type 0) : Type 0 where
  pub handle : ℕ
  pub params : P
  pub buffer : Bytes

pub record Manager (B : Backend) : Type 0 where
  -- Open sessions with the flags that they were opened with.
  pub sessions : BTreeMap ℕ
  pub searches : BTreeMap (List ℕ)
  pub signs : BTreeMap (Operation (Option PssParams))
  pub decrypts : BTreeMap (Operation RsaCipherMechanism)
  pub encrypts : BTreeMap (Operation RsaCipherMechanism)
  pub objects : BTreeMap (ObjectOf B)
  pub cert_ids : List Bytes
  pub key_ids : List Bytes
  pub trust_ids : List Bytes
  pub next_session : ℕ
  pub next_handle : ℕ
  pub last_scan_time : Option ℕ

-- The fields as `Manager::new` sets them, before its first scan.
unfoldable pub empty : (B : Backend) → Manager B
empty B = record {
  sessions = [];
  searches = [];
  signs = [];
  decrypts = [];
  encrypts = [];
  objects = [];
  cert_ids = [];
  key_ids = [];
  trust_ids = [];
  next_session = 1;
  next_handle = 1;
  last_scan_time = none;
}

-- `n += 1` on a `CK_ULONG`: it wraps round in a build without overflow checks.
abbrev pub ulong_suc : Backend → ℕ → ℕ
ulong_suc B n = (n + 1) % B.cryptoki.ulong_mod

-- `match self.objects.get(&key_handle)` where only a key will do.
unfoldable pub as_key : (B : Backend) → Option (ObjectOf B) → Result B.Key CryptoError
as_key B none = err invalid_key
as_key B (some (cert _)) = err invalid_key
as_key B (some (key k)) = ok k
as_key B (some (trust _)) = err invalid_key
