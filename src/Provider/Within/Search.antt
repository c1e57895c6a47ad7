-- ===== src/Provider/Within/Search.antt =====
-- C_FindObjects writes no further than the caller's array.
use osclientcerts.Prelude.{
  ℕ, ◌≤◌, ◌≡◌, refl, ap, Option, none, some, List, Result, ok, err, length, take, drop, ◌++◌, arith,
  ltb, ◌==◌, length-append, length-drop, length-take, Bool-cases, inl, inr, false,
}
use osclientcerts.Cryptoki.{Rv, ckr_arguments_bad}
use osclientcerts.Backend.{Backend}
use osclientcerts.Manager.State.{Manager}
use osclientcerts.Manager.Search
use osclientcerts.Proxy.Calls
use osclientcerts.Proxy.Identical.{proxy-IsIdentical}
use osclientcerts.Provider.{Outcome, returns, Provider, call_manager}
use osclientcerts.Provider.Search.{c_find_objects}
use osclientcerts.Provider.Ready.{ready}
use osclientcerts.Provider.Within.{carried, call_manager-carried}

-- The number of handles behind the caller's pointer after a call that returns.
abbrev pub array_after :
    {B : Backend} → Outcome (Rv × Option (List ℕ) × Option ℕ × Provider B) → Option ℕ
array_after (returns (_, some memory, _, _)) = some (length memory)
array_after _ = none

module _ (B : Backend) (os : B.Os) (m : Manager B) (session max_count object_count : ℕ)
    (memory : List ℕ) (room : max_count ≤ length memory) where
  length-overwritten :
      (handles : List ℕ)
      → length (take max_count handles ++ drop (length (take max_count handles)) memory)
        ≡ length memory
  length-overwritten handles =
      let written = take max_count handles in
      omega (
        arith,
        length-append written (drop (length written) memory),
        length-drop (length written) memory,
        length-take max_count handles,
      )

  answered :
      (r : Result (List ℕ) Unit) (t : Manager B)
      → (max_count == 0) ≡ false
      → call_manager B (λ _. ckr_arguments_bad) (Calls.search B os session max_count) (ready B m)
        ≡ carried B (λ _. ckr_arguments_bad) r t
      → array_after
          (c_find_objects B os session (some memory) max_count (some object_count) (ready B m))
        ≡ some (length memory)
  unfolding c_find_objects
  answered (err e) t wanted h = rw (wanted, h) refl
  answered (ok handles) t wanted h = elim (Bool-cases (ltb max_count (length handles))) [
    | inl many ↦ rw (wanted, h, many) refl
    | inr few ↦ rw (wanted, h, few) (ap some (length-overwritten handles))
  ]

  -- C_FindObjects with any session, manager and maximum returns, and there are as many handles
  -- behind the caller's pointer as before: nothing is written past the array, if it has room for
  -- the maximum.
  pub c_find_objects-within :
      array_after
        (c_find_objects B os session (some memory) max_count (some object_count) (ready B m))
      ≡ some (length memory)
  unfolding c_find_objects
  c_find_objects-within = elim (Bool-cases (max_count == 0)) [
    | inl none_wanted ↦ rw none_wanted refl
    | inr wanted ↦ answered (Search.search B session max_count m).0 _ wanted (
        call_manager-carried B (λ _. ckr_arguments_bad) (Calls.search B os session max_count) m _ _
          ((proxy-IsIdentical B os m).search session max_count))
  ]
