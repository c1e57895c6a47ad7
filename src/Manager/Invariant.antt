-- ===== src/Manager/Invariant.antt =====
-- What holds of the manager between any two requests: handles are below the counters that will
-- hand out the next ones, active operations have an object that they accept and a bounded buffer,
-- searches name objects that are there, and no object is listed twice.
pub mod Grow
pub mod Scan
pub mod Sign
pub mod Decrypt
pub mod Encrypt
pub mod Sessions
pub mod Searches
pub mod Reach
use osclientcerts.Prelude.{
  ℕ, ◌≤◌, ◌<◌, ◌≡◌, Bool, true, false, Option, none, some, List, Result, ok, length, All, Bytes,
  bytes_eq, ◌||◌,
}
use osclientcerts.Cryptoki.{PssParams}
use osclientcerts.Util.Errors.{CryptoError, max_total_operation_data_len}
use osclientcerts.BTreeMap
use osclientcerts.BTreeMap.{BTreeMap, contains_key}
use osclientcerts.BTreeMap.Sorted.{IsSorted}
use osclientcerts.BTreeMap.Values.{AllValues}
use osclientcerts.Backend.{Backend, ObjectOf, cert, key, trust}
use osclientcerts.Manager.State.{Operation, Manager}
use osclientcerts.Manager.Scan.{contains}
use osclientcerts.Manager.Sign.{accepts_sign}
use osclientcerts.Manager.Decrypt.{accepts_decrypt}
use osclientcerts.Manager.Encrypt.{accepts_encrypt}

module _ (B : Backend) where
  pub record OpIsValid (accepts : Option (ObjectOf B) → Result (Unit {0}) CryptoError)
      (objects : BTreeMap (ObjectOf B)) {P : Type 0} (op : Operation P) : Type 0 where
    pub accepted : accepts (BTreeMap.get objects op.handle) ≡ ok tt
    pub bounded : length op.buffer ≤ max_total_operation_data_len

  abbrev pub KnownIn : List Bytes → List Bytes → List Bytes → ObjectOf B → Type 0
  KnownIn certs keys trusts (cert c) = contains certs (B.cert_id c) ≡ true
  KnownIn certs keys trusts (key c) = contains keys (B.key_id c) ≡ true
  KnownIn certs keys trusts (trust c) = contains trusts (B.trust_id c) ≡ true

  -- The object's identifier is in the set that the scan looks in.
  abbrev pub IsKnown : Manager B → ObjectOf B → Type 0
  IsKnown m o = KnownIn m.cert_ids m.key_ids m.trust_ids o

  -- Objects of one class with one identifier.
  unfoldable pub same_identity : ObjectOf B → ObjectOf B → Bool
  same_identity (cert c) (cert d) = bytes_eq (B.cert_id c) (B.cert_id d)
  same_identity (key c) (key d) = bytes_eq (B.key_id c) (B.key_id d)
  same_identity (trust c) (trust d) = bytes_eq (B.trust_id c) (B.trust_id d)
  same_identity _ _ = false

  pub record IsValid (m : Manager B) : Type 0 where
    pub sessions_below : AllValues (λ s flags. s < m.next_session) m.sessions
    pub objects_below : AllValues (λ h o. h < m.next_handle) m.objects
    pub objects_sorted : IsSorted m.objects
    pub objects_known : AllValues (λ h o. IsKnown m o) m.objects
    pub objects_distinct :
        (h j : ℕ) (o p : ObjectOf B)
        → BTreeMap.get m.objects h ≡ some o
        → BTreeMap.get m.objects j ≡ some p
        → same_identity o p ≡ true
        → h ≡ j
    pub searches_valid :
        AllValues (λ s handles. All (λ h. contains_key m.objects h ≡ true) handles) m.searches
    pub signs_valid : AllValues (λ s op. OpIsValid (accepts_sign B) m.objects op) m.signs
    pub decrypts_valid : AllValues (λ s op. OpIsValid (accepts_decrypt B) m.objects op) m.decrypts
    pub encrypts_valid : AllValues (λ s op. OpIsValid (accepts_encrypt B) m.objects op) m.encrypts
