-- ===== src/BTreeMap/Sorted.antt =====
-- The entries stand in ascending order of their keys, each key once.
use osclientcerts.Prelude.{
  ℕ, ◌<◌, ◌≡◌, refl, none, [], ◌∷◌, suc, arith, ltb, ◌==◌, inl, inr, Bool-cases, ==_iff, subst,
}
use osclientcerts.BTreeMap.{BTreeMap, get, insert}

module _ {ℓ} {V : Type ℓ} where
  -- Every key of the map lies above.
  abbrev pub IsAbove : ℕ → BTreeMap V → Type 0
  IsAbove k [] = Unit
  IsAbove k ((j, v) ∷ m) = (k < j) × IsAbove k m

  abbrev pub IsSorted : BTreeMap V → Type 0
  IsSorted [] = Unit
  IsSorted ((k, v) ∷ m) = IsAbove k m × IsSorted m

  IsAbove-lt : (j k : ℕ) (m : BTreeMap V) → j < k → IsAbove k m → IsAbove j m
  IsAbove-lt j k [] h a = tt
  IsAbove-lt j k ((i, v) ∷ m) h (b, a) = (omega arith, IsAbove-lt j k m h a)

  IsAbove-insert :
      (j : ℕ) (m : BTreeMap V) (k : ℕ) (v : V) → j < k → IsAbove j m → IsAbove j (insert m k v)
  unfolding insert
  IsAbove-insert j [] k v h a = (h, tt)
  IsAbove-insert j ((i, w) ∷ m) k v h (b, a) = ground (arith, IsAbove-insert j m k v h a)

  pub IsSorted-insert : (m : BTreeMap V) (k : ℕ) (v : V) → IsSorted m → IsSorted (insert m k v)
  unfolding insert
  IsSorted-insert [] k v s = (tt, tt)
  IsSorted-insert ((i, w) ∷ m) k v (a, s) = elim (Bool-cases (i == k)) [
    | inl same ↦ rw same (subst (λ (x : ℕ). IsAbove x m) ((==_iff i k).0 same) a, s)
    | inr other ↦ elim (Bool-cases (ltb k i)) [
      | inl before ↦
          let p : k < i = ground arith in rw (other, before) ((p, IsAbove-lt k i m p a), (a, s))
      | inr behind ↦
          rw (other, behind) (IsAbove-insert i m k v (ground arith) a, IsSorted-insert m k v s)
    ]
  ]

  -- Below all keys nothing is found.
  pub get-IsAbove : (k j : ℕ) (m : BTreeMap V) → IsAbove k m → j < suc k → get m j ≡ none
  unfolding get
  get-IsAbove k j [] a h = refl
  get-IsAbove k j ((i, v) ∷ m) (b, a) h = ground (arith, get-IsAbove k j m a h)
