-- ===== src/Manager/Invariant/Searches.antt =====
-- Searches, and opening a session, keep the invariant.
use osclientcerts.Prelude.{
  ℕ, ◌+◌, ◌<◌, ◌≡◌, [], ◌∷◌, List, true, length, All-map, All-take, inl, inr, Option-cases,
  Bool-cases, arith, drop, ltb, ◌==◌, not, ◌⊎◌, List-cases,
}
use osclientcerts.BTreeMap
use osclientcerts.BTreeMap.{BTreeMap, contains_key}
use osclientcerts.Backend.{Backend, ObjectOf, Attributes}
use osclientcerts.Manager.State.{Manager}
use osclientcerts.Manager.Scan.{three_seconds, maybe_find_new_objects, open_session}
use osclientcerts.Manager.Search.{
  rescan_interval, all_supported, matching_handles, gather_handles, start_search, split_at, search,
}
use osclientcerts.Manager.Frame.{SameSessions-scan}
use osclientcerts.Manager.Matching.{Hit, matching_handles_sound}
use osclientcerts.Manager.Invariant.{IsValid}
use osclientcerts.Manager.Invariant.Scan.{HasRoom, maybe_find_new_objects-IsValid}
use osclientcerts.Manager.Invariant.Sessions.{open_session-after, with_search-IsValid}

module _ (B : Backend) (m : Manager B) (valid : IsValid B m) where
  pub open_session-IsValid :
      (os : B.Os) (flags : ℕ)
      → HasRoom B os m
      → m.next_session + 1 < B.cryptoki.ulong_mod
      → IsValid B (open_session B os flags m).1
  unfolding open_session
  open_session-IsValid os flags room left =
      open_session-after B flags (maybe_find_new_objects B os three_seconds m)
        (maybe_find_new_objects-IsValid B os three_seconds m valid room)
        (omega (arith, (SameSessions-scan B os three_seconds m).next_session))

  pub search-IsValid : (session max_objects : ℕ) → IsValid B (search B session max_objects m).1
  unfolding search
  search-IsValid session max_objects = elim (Bool-cases (max_objects == 0)) [
    | inl none_wanted ↦ rw none_wanted valid
    | inr wanted ↦ elim (Option-cases (BTreeMap.get m.searches session)) [
      | inl e ↦ rw (wanted, e, search) valid
      | inr (handles, e) ↦
          let cut = split_at max_objects handles in
          let s =
            with_search-IsValid B m valid session _
              (All-take _ cut handles (valid.searches_valid.at session handles e)) in
          elim (Bool-cases (ltb max_objects (length (drop cut handles)))) [
            | inl many ↦ rw (wanted, e, search, many) s
            | inr few ↦ rw (wanted, e, search, few) s
          ]
    ]
  ]

module _ (B : Backend) where
  present :
      (objects : BTreeMap (ObjectOf B)) (attrs : Attributes) (h : ℕ)
      → Hit B objects attrs h
      → contains_key objects h ≡ true
  present objects attrs h (o, found, good) = rw (found, contains_key)

  gathered-IsValid :
      (s : Manager B) (session : ℕ) (attrs : Attributes)
      → IsValid B s
      → IsValid B (record s {
        searches = BTreeMap.insert s.searches session (matching_handles B s.objects attrs);
      })
  gathered-IsValid s session attrs v = with_search-IsValid B s v session _ (
      All-map _ _ _ (present s.objects attrs)
        (matching_handles_sound B s.objects attrs v.objects_sorted))

  gather_handles-hit :
      (os : B.Os) (attrs : Attributes) (m : Manager B) (h : ℕ) (hs : List ℕ)
      → matching_handles B m.objects attrs ≡ h ∷ hs
      → gather_handles B os attrs m ≡ (matching_handles B m.objects attrs, m)
  unfolding gather_handles
  gather_handles-hit os attrs m h hs e = rw (e, gather_handles)

  gather_handles-miss :
      (os : B.Os) (attrs : Attributes) (m : Manager B)
      → matching_handles B m.objects attrs ≡ []
      → gather_handles B os attrs m ≡ (
        matching_handles B (maybe_find_new_objects B os rescan_interval m).objects attrs,
        maybe_find_new_objects B os rescan_interval m,
      )
  unfolding gather_handles
  gather_handles-miss os attrs m e = rw (e, gather_handles)

  -- Either something matches and the manager stays, or there is a scan; the handles are those that
  -- match in the manager that is left.
  pub gather_handles-cases :
      (os : B.Os) (attrs : Attributes) (m : Manager B)
      → (gather_handles B os attrs m ≡ (matching_handles B m.objects attrs, m))
        ⊎ (gather_handles B os attrs m ≡ (
          matching_handles B (maybe_find_new_objects B os rescan_interval m).objects attrs,
          maybe_find_new_objects B os rescan_interval m,
        ))
  gather_handles-cases os attrs m = elim (List-cases (matching_handles B m.objects attrs)) [
    | inl e ↦ inr (gather_handles-miss os attrs m e)
    | inr (h, hs, e) ↦ inl (gather_handles-hit os attrs m h hs e)
  ]

  pub start_search-IsValid :
      (m : Manager B) (os : B.Os) (session : ℕ) (attrs : Attributes)
      → IsValid B m
      → HasRoom B os m
      → IsValid B (start_search B os session attrs m).1
  unfolding start_search
  start_search-IsValid m os session attrs v room =
      elim (Bool-cases (contains_key m.searches session)) [
        | inl active ↦ rw active v
        | inr idle ↦ elim (Bool-cases (not (all_supported B.supported_attributes attrs))) [
          | inl unsupported ↦ rw (idle, unsupported) (with_search-IsValid B m v session [] tt)
          | inr supported ↦
              rw (idle, supported)
                (elim (gather_handles-cases os attrs m) [
                  | inl e ↦ rw e (gathered-IsValid m session attrs v)
                  | inr e ↦ rw e (
                      gathered-IsValid (maybe_find_new_objects B os rescan_interval m) session attrs
                        (maybe_find_new_objects-IsValid B os rescan_interval m v room))
                ])
        ]
      ]
