-- ===== src/Manager/Invariant/Sessions.antt =====
-- Opening and closing sessions, and searches, keep the invariant.
use osclientcerts.Prelude.{ℕ, ◌+◌, ◌<◌, ◌≡◌, List, true, All, inl, inr, Bool-cases, arith}
use osclientcerts.BTreeMap
use osclientcerts.BTreeMap.{BTreeMap, contains_key, get}
use osclientcerts.BTreeMap.Values.{
  AllValues, AllValues-insert, AllValues-remove, AllValues-nil, AllValues-map,
}
use osclientcerts.Backend.{Backend, ObjectOf}
use osclientcerts.Manager.State.{Manager, empty, ulong_suc}
use osclientcerts.Manager.Scan.{three_seconds, new, close_session, close_all_sessions}
use osclientcerts.Manager.Search.{clear_search}
use osclientcerts.Manager.Invariant.{IsValid}
use osclientcerts.Manager.Invariant.Grow.{ulong_suc-eq-add}
use osclientcerts.Manager.Invariant.Scan.{HasRoom, maybe_find_new_objects-IsValid}

module _ (B : Backend) where
  empty-IsValid : IsValid B (empty B)
  unfolding empty
  empty-IsValid = record {
    sessions_below = AllValues-nil;
    objects_below = AllValues-nil;
    objects_sorted = tt;
    objects_known = AllValues-nil;
    objects_distinct = λ h j o p e f s. cc (BTreeMap.Laws.get-nil {V = ObjectOf B} h);
    searches_valid = AllValues-nil;
    signs_valid = AllValues-nil;
    decrypts_valid = AllValues-nil;
    encrypts_valid = AllValues-nil;
  }

  -- A manager starts out valid.
  pub new-IsValid : (os : B.Os) → HasRoom B os (empty B) → IsValid B (new B os)
  unfolding new
  new-IsValid os room =
      maybe_find_new_objects-IsValid B os three_seconds (empty B) empty-IsValid room

  pub open_session-after :
      (flags : ℕ) (s : Manager B)
      → IsValid B s
      → s.next_session + 1 < B.cryptoki.ulong_mod
      → IsValid B (record s {
        next_session = ulong_suc B s.next_session;
        sessions = BTreeMap.insert s.sessions s.next_session flags;
      })
  open_session-after flags s v room = record {
    sessions_below =
        AllValues-insert s.sessions s.next_session flags
          (omega (arith, ulong_suc-eq-add B s.next_session room))
          (AllValues-map s.sessions (λ h f b. omega (arith, ulong_suc-eq-add B s.next_session room))
            v.sessions_below);
    objects_below = v.objects_below;
    objects_sorted = v.objects_sorted;
    objects_known = v.objects_known;
    objects_distinct = v.objects_distinct;
    searches_valid = v.searches_valid;
    signs_valid = v.signs_valid;
    decrypts_valid = v.decrypts_valid;
    encrypts_valid = v.encrypts_valid;
  }

  module _ (m : Manager B) (valid : IsValid B m) where
    pub close_session-IsValid : (session : ℕ) → IsValid B (close_session B session m).1
    unfolding close_session
    close_session-IsValid session = elim (Bool-cases (contains_key m.sessions session)) [
      | inl there ↦ rw there (record {
        sessions_below = AllValues-remove m.sessions session valid.sessions_below;
        objects_below = valid.objects_below;
        objects_sorted = valid.objects_sorted;
        objects_known = valid.objects_known;
        objects_distinct = valid.objects_distinct;
        searches_valid = AllValues-remove m.searches session valid.searches_valid;
        signs_valid = AllValues-remove m.signs session valid.signs_valid;
        decrypts_valid = AllValues-remove m.decrypts session valid.decrypts_valid;
        encrypts_valid = AllValues-remove m.encrypts session valid.encrypts_valid;
      })
      | inr missing ↦ rw missing valid
    ]

    pub close_all_sessions-IsValid : IsValid B (close_all_sessions B m).1
    unfolding close_all_sessions
    close_all_sessions-IsValid = record {
      sessions_below = AllValues-nil;
      objects_below = valid.objects_below;
      objects_sorted = valid.objects_sorted;
      objects_known = valid.objects_known;
      objects_distinct = valid.objects_distinct;
      searches_valid = AllValues-nil;
      signs_valid = AllValues-nil;
      decrypts_valid = AllValues-nil;
      encrypts_valid = AllValues-nil;
    }

    with_searches-IsValid :
        (searches : BTreeMap (List ℕ))
        → AllValues (λ s handles. All (λ h. contains_key m.objects h ≡ true) handles) searches
        → IsValid B (record m { searches = searches })
    with_searches-IsValid searches all = record {
      sessions_below = valid.sessions_below;
      objects_below = valid.objects_below;
      objects_sorted = valid.objects_sorted;
      objects_known = valid.objects_known;
      objects_distinct = valid.objects_distinct;
      searches_valid = all;
      signs_valid = valid.signs_valid;
      decrypts_valid = valid.decrypts_valid;
      encrypts_valid = valid.encrypts_valid;
    }

    pub with_search-IsValid :
        (session : ℕ) (handles : List ℕ)
        → All (λ h. contains_key m.objects h ≡ true) handles
        → IsValid B (record m { searches = BTreeMap.insert m.searches session handles })
    with_search-IsValid session handles all =
        with_searches-IsValid _
          (AllValues-insert m.searches session handles all valid.searches_valid)

    pub clear_search-IsValid : (session : ℕ) → IsValid B (clear_search B session m).1
    unfolding clear_search
    clear_search-IsValid session =
        with_searches-IsValid _ (AllValues-remove m.searches session valid.searches_valid)
