-- ===== src/Manager/Scan.antt =====
-- src/manager.rs: looking for new objects, and opening and closing sessions.
use osclientcerts.Prelude.{
  ℕ, ◌-◌, Bool, false, ◌||◌, Option, none, some, List, [], ◌∷◌, Result, ok, err, Bytes, bytes_eq,
  ltb, if◌then◌else◌,
}
use osclientcerts.BTreeMap
use osclientcerts.BTreeMap.{BTreeMap, contains_key}
use osclientcerts.Backend.{Backend, ObjectOf, cert, key, trust}
use osclientcerts.Manager.State.{Manager, empty, ulong_suc}

-- `BTreeSet::contains` on a set of identifiers; `insert` adds to the list.
unfoldable pub contains : List Bytes → Bytes → Bool
contains [] x = false
contains (y ∷ ys) x = bytes_eq y x || contains ys x

-- The throttle: a scan ran less than `min_interval` ago.
unfoldable pub scanned_recently : Option ℕ → ℕ → ℕ → Bool
scanned_recently none now min_interval = false
scanned_recently (some last) now min_interval = ltb (now - last) min_interval

-- `Duration::new(3, 0)`, in nanoseconds.
abbrev pub three_seconds : ℕ
three_seconds = 3_000_000_000

module _ (B : Backend) where
  -- `get_next_handle`, then `self.objects.insert(handle, object)`.
  unfoldable pub add_object : Manager B → ObjectOf B → Manager B
  add_object m object = record m {
    objects = BTreeMap.insert m.objects m.next_handle object;
    next_handle = ulong_suc B m.next_handle;
  }

  -- The body of the second loop of `maybe_find_new_objects`.
  unfoldable pub admit : Manager B → ObjectOf B → Manager B
  admit m (cert c) =
      if contains m.cert_ids (B.cert_id c)
      then m
      else add_object (record m { cert_ids = B.cert_id c ∷ m.cert_ids }) (cert c)
  admit m (key c) =
      if contains m.key_ids (B.key_id c)
      then m
      else add_object (record m { key_ids = B.key_id c ∷ m.key_ids }) (key c)
  admit m (trust c) =
      if contains m.trust_ids (B.trust_id c)
      then m
      else add_object (record m { trust_ids = B.trust_id c ∷ m.trust_ids }) (trust c)

  unfoldable pub admit_all : Manager B → List (ObjectOf B) → Manager B
  admit_all m [] = m
  admit_all m (object ∷ objects) = admit_all (admit m object) objects

  unfoldable pub maybe_find_new_objects : B.Os → ℕ → Manager B → Manager B
  unfolding scanned_recently
  maybe_find_new_objects os min_interval m =
      if scanned_recently m.last_scan_time (B.now os) min_interval
      then m
      else admit_all (record m { last_scan_time = some (B.now os) }) (B.list_objects os)

  -- `Manager::new`
  unfoldable pub new : B.Os → Manager B
  unfolding empty
  new os = maybe_find_new_objects os three_seconds (empty B)

  unfoldable pub open_session : B.Os → ℕ → Manager B → Result ℕ Unit × Manager B
  open_session os flags m =
      let s = maybe_find_new_objects os three_seconds m in
      (
        ok s.next_session,
        record s {
          next_session = ulong_suc B s.next_session;
          sessions = BTreeMap.insert s.sessions s.next_session flags;
        },
      )

  unfoldable pub get_session_info : ℕ → Manager B → Result ℕ Unit × Manager B
  get_session_info session m = elim (BTreeMap.get m.sessions session) [
    | none ↦ (err tt, m)
    | some flags ↦ (ok flags, m)
  ]

  unfoldable pub close_session : ℕ → Manager B → Result (Unit {0}) Unit × Manager B
  close_session session m =
      if contains_key m.sessions session
      then (
        ok tt,
        record m {
          sessions = BTreeMap.remove m.sessions session;
          searches = BTreeMap.remove m.searches session;
          signs = BTreeMap.remove m.signs session;
          decrypts = BTreeMap.remove m.decrypts session;
          encrypts = BTreeMap.remove m.encrypts session;
        },
      )
      else (err tt, m)

  unfoldable pub close_all_sessions : Manager B → Result (Unit {0}) Unit × Manager B
  close_all_sessions m =
      (ok tt, record m { sessions = []; searches = []; signs = []; decrypts = []; encrypts = [] })
