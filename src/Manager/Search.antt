-- ===== src/Manager/Search.antt =====
-- src/manager.rs: searches, and the attributes of an object.
use osclientcerts.Prelude.{
  ℕ, ◌-◌, Bool, true, false, not, ◌&&◌, ◌||◌, Option, none, some, List, [], ◌∷◌, map, Result, ok,
  err, Bytes, length, take, drop, leb, ltb, ◌==◌, if◌then◌else◌,
}
use osclientcerts.BTreeMap
use osclientcerts.BTreeMap.{BTreeMap, contains_key}
use osclientcerts.Backend.{Backend, ObjectOf, Attributes}
use osclientcerts.Manager.State.{Manager}
use osclientcerts.Manager.Scan.{maybe_find_new_objects}

-- `Duration::from_millis(250)`, in nanoseconds.
abbrev pub rescan_interval : ℕ
rescan_interval = 250_000_000

unfoldable pub supports : List ℕ → ℕ → Bool
supports [] a = false
supports (b ∷ bs) a = b == a || supports bs a

-- The loop that looks for an unsupported attribute.
unfoldable pub all_supported : List ℕ → Attributes → Bool
all_supported supported [] = true
all_supported supported ((a, _) ∷ attrs) = supports supported a && all_supported supported attrs

-- The index at which a search is cut: what stands behind it is handed out.
unfoldable pub split_at : ℕ → List ℕ → ℕ
split_at max_objects handles =
    if leb (length handles) max_objects then 0 else length handles - max_objects

module _ (B : Backend) where
  unfoldable pub matching_handles : BTreeMap (ObjectOf B) → Attributes → List ℕ
  matching_handles [] attrs = []
  matching_handles ((handle, object) ∷ objects) attrs =
      let rest = matching_handles objects attrs in
      if B.matches object attrs then handle ∷ rest else rest

  -- The handles are looked for again, after a scan, if there are none.
  unfoldable pub gather_handles : B.Os → Attributes → Manager B → List ℕ × Manager B
  gather_handles os attrs m = elim (matching_handles m.objects attrs) [
    | [] ↦
        let s = maybe_find_new_objects B os rescan_interval m in
        (matching_handles s.objects attrs, s)
    | handle ∷ handles ↦ (handle ∷ handles, m)
  ]

  unfoldable pub start_search :
      B.Os → ℕ → Attributes → Manager B → Result (Unit {0}) Unit × Manager B
  start_search os session attrs m =
      if contains_key m.searches session
      then (err tt, m)
      else if not (all_supported B.supported_attributes attrs)
      then (ok tt, record m { searches = BTreeMap.insert m.searches session [] })
      else (let (handles, s) = gather_handles os attrs m in
          (ok tt, record s { searches = BTreeMap.insert s.searches session handles }))

  unfoldable pub search : ℕ → ℕ → Manager B → Result (List ℕ) Unit × Manager B
  unfolding split_at
  search session max_objects m =
      if max_objects == 0 then (err tt, m) else elim (BTreeMap.get m.searches session) [
        | none ↦ (err tt, m)
        | some handles ↦
            let cut = split_at max_objects handles in
            let s = record m { searches = BTreeMap.insert m.searches session (take cut handles) } in
            if ltb max_objects (length (drop cut handles))
            then (err tt, s)
            else (ok (drop cut handles), s)
      ]

  unfoldable pub clear_search : ℕ → Manager B → Result (Unit {0}) Unit × Manager B
  clear_search session m = (ok tt, record m { searches = BTreeMap.remove m.searches session })

  unfoldable pub get_attributes :
      ℕ → List ℕ → Manager B → Result (List (Option Bytes)) Unit × Manager B
  get_attributes object_handle attr_types m = elim (BTreeMap.get m.objects object_handle) [
    | none ↦ (err tt, m)
    | some object ↦ (ok (map (B.get_attribute object) attr_types), m)
  ]
