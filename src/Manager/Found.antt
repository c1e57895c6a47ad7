-- ===== src/Manager/Found.antt =====
-- What a started search holds.
use osclientcerts.Prelude.{ℕ, ◌≡◌, refl, List, true, none, some, ok, All, inl, inr}
use osclientcerts.BTreeMap
use osclientcerts.BTreeMap.{BTreeMap, get, contains_key}
use osclientcerts.BTreeMap.Laws.{get-insert_self}
use osclientcerts.BTreeMap.Sorted.{IsSorted}
use osclientcerts.Backend.{Backend, ObjectOf, Attributes}
use osclientcerts.Manager.State.{Manager}
use osclientcerts.Manager.Scan.{maybe_find_new_objects}
use osclientcerts.Manager.Search.{
  rescan_interval, all_supported, matching_handles, gather_handles, start_search,
}
use osclientcerts.Manager.Matching.{
  listed, Ascends, Hit, matching_handles_sound, matching_handles_complete, matching_handles-Ascends,
}
use osclientcerts.Manager.Invariant.{IsValid}
use osclientcerts.Manager.Invariant.Scan.{HasRoom, maybe_find_new_objects-IsValid}
use osclientcerts.Manager.Invariant.Searches.{gather_handles-cases}

module _ (B : Backend) where
  -- The session's search in the manager holds the handles of the objects that match, each once.
  pub record Holds (m : Manager B) (session : ℕ) (attrs : Attributes) : Type 0 where
    pub handles : List ℕ
    pub held : get m.searches session ≡ some handles
    pub sound : All (Hit B m.objects attrs) handles
    pub complete :
        (h : ℕ) (o : ObjectOf B)
        → get m.objects h ≡ some o
        → B.matches o attrs ≡ true
        → listed h handles ≡ true
    pub ascends : Ascends handles

  Holds-matching :
      (s : Manager B) (session : ℕ) (attrs : Attributes)
      → IsSorted s.objects
      → Holds
          (record s {
            searches = BTreeMap.insert s.searches session (matching_handles B s.objects attrs);
          })
          session
          attrs
  Holds-matching s session attrs sorted = record {
    handles = matching_handles B s.objects attrs;
    held = get-insert_self s.searches session _;
    sound = matching_handles_sound B s.objects attrs sorted;
    complete = λ h o. matching_handles_complete B s.objects attrs h o;
    ascends = matching_handles-Ascends B s.objects attrs sorted;
  }

  module _ (os : B.Os) (session : ℕ) (attrs : Attributes) (m : Manager B) (valid : IsValid B m)
      (room : HasRoom B os m) (idle : get m.searches session ≡ none)
      (supported : all_supported B.supported_attributes attrs ≡ true) where
    start_search-gathers : start_search B os session attrs m ≡ (
      ok tt,
      record (gather_handles B os attrs m).1 {
        searches =
            BTreeMap.insert
              (gather_handles B os attrs m).1.searches
              session
              (gather_handles B os attrs m).0;
      },
    )
    unfolding start_search
    start_search-gathers = rw (idle, supported, start_search, contains_key)

    -- A search for supported attributes, on a session of a valid manager that has none, succeeds,
    -- and then holds exactly the handles of the objects that match, in ascending order: those of the
    -- manager that it leaves, after the scan that it makes if nothing matched at first.
    pub start_search-Holds :
        ((start_search B os session attrs m).0 ≡ ok tt)
        × Holds (start_search B os session attrs m).1 session attrs
    start_search-Holds = rw start_search-gathers (
      refl,
      elim (gather_handles-cases B os attrs m) [
        | inl e ↦ rw e (Holds-matching m session attrs valid.objects_sorted)
        | inr e ↦ rw e (
            Holds-matching (maybe_find_new_objects B os rescan_interval m) session attrs
              (maybe_find_new_objects-IsValid B os rescan_interval m valid room).objects_sorted)
      ],
    )
