-- ===== src/Manager/Drain.antt =====
-- A search hands out each of its handles exactly once.

use osclientcerts.Prelude.{
  ℕ, zero, suc, ◌-◌, ◌≤◌, ◌<◌, ◌≡◌, ◌++◌, refl, [], ◌∷◌, List, some, Result, ok, err, length, take,
  drop, take-append-drop, length-drop, length-append, arith, ap, ◌∙◌,
}
use osclientcerts.BTreeMap
use osclientcerts.BTreeMap.{get}
use osclientcerts.BTreeMap.Laws.{get-insert_self}
use osclientcerts.Backend.{Backend}
use osclientcerts.Manager.State.{Manager}
use osclientcerts.Manager.Search.{split_at, search}

split_at-le :
    (max_objects : ℕ) (handles : List ℕ)
    → length handles - split_at max_objects handles ≤ max_objects
unfolding split_at
split_at-le max_objects handles = ground arith

split_at-lt :
    (max_objects : ℕ) (handles : List ℕ)
    → 0 < max_objects
    → 0 < length handles
    → split_at max_objects handles < length handles
unfolding split_at
split_at-lt max_objects handles p q = ground arith

module _ (B : Backend) where
  -- One call on an active search takes the last handles, as many as are asked for or all, and
  -- leaves the others in the search.
  pub search-split :
      (m : Manager B) (session max_objects : ℕ) (handles : List ℕ)
      → get m.searches session ≡ some handles
      → 0 < max_objects
      → (kept out : List ℕ) × (search B session max_objects m
          ≡ (ok out, record m { searches = BTreeMap.insert m.searches session kept }))
        × (kept ++ out ≡ handles)
        × (length out ≤ max_objects)
        × (0 < length handles → 0 < length out)
  unfolding search
  search-split m session max_objects handles e p = (
    take cut handles,
    drop cut handles,
    ground (arith, split_at-le max_objects handles, length-drop cut handles),
    take-append-drop cut handles,
    omega (arith, split_at-le max_objects handles, length-drop cut handles),
    λ q. omega (arith, split_at-lt max_objects handles p q, length-drop cut handles),
  )
    where
      cut : ℕ
      cut = split_at max_objects handles

  -- A caller that asks until nothing comes, and puts each answer before what it has.
  collect_from : Result (List ℕ) (Unit {0}) × Manager B → (Manager B → List ℕ) → List ℕ
  collect_from (err e, m) go = []
  collect_from (ok [], m) go = []
  collect_from (ok (h ∷ hs), m) go = go m ++ (h ∷ hs)

  pub collect : ℕ → ℕ → ℕ → Manager B → List ℕ
  collect zero session max_objects m = []
  collect (suc fuel) session max_objects m =
      collect_from (search B session max_objects m) (λ m'. collect fuel session max_objects m')

  portion :
      (go : Manager B → List ℕ) (m' : Manager B) (kept out handles : List ℕ)
      → kept ++ out ≡ handles
      → (0 < length handles → 0 < length out)
      → (length kept < length handles → go m' ≡ kept)
      → collect_from (ok out, m') go ≡ handles
  unfolding collect_from
  portion go m' kept [] [] whole some_out ih = refl
  portion go m' kept [] (h ∷ handles) whole some_out ih =
      absurd (omega (arith, some_out (omega arith)))
  portion go m' kept (o ∷ out) handles whole some_out ih =
      ap (λ x. x ++ (o ∷ out)) (ih (omega (arith, ap length whole, length-append kept (o ∷ out))))
      ∙ whole

  -- Asked until nothing comes, in portions of any size but zero, a search gives exactly the handles
  -- that it held; one call more than there are handles is always enough.
  pub collect_all :
      (fuel session max_objects : ℕ) (m : Manager B) (handles : List ℕ)
      → get m.searches session ≡ some handles
      → 0 < max_objects
      → length handles < fuel
      → collect fuel session max_objects m ≡ handles
  unfolding collect collect_from
  collect_all zero session max_objects m handles e p f = absurd (omega arith)
  collect_all (suc fuel) session max_objects m handles e p f =
      let (kept, out, called, whole, few, some_out) =
        search-split m session max_objects handles e p in
      rw called (
        portion _ _ kept out handles whole some_out (λ q.
          collect_all fuel session max_objects
            (record m { searches = BTreeMap.insert m.searches session kept }) kept
            (get-insert_self m.searches session kept) p (omega arith)))
