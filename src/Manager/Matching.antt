-- ===== src/Manager/Matching.antt =====
-- `matching_handles` lists exactly the handles of the objects that match, in ascending order.
use osclientcerts.Prelude.{
  ℕ, ◌<◌, ◌≡◌, Bool, true, false, ◌||◌, some, List, [], ◌∷◌, All, All-map, inl, inr, Bool-cases,
  arith, ◌==◌,
}
use osclientcerts.BTreeMap.{BTreeMap, get}
use osclientcerts.BTreeMap.Sorted.{IsSorted, IsAbove, get-IsAbove}
use osclientcerts.Backend.{Backend, ObjectOf, Attributes}
use osclientcerts.Manager.Search.{matching_handles}

-- The handle stands in the list.
unfoldable pub listed : ℕ → List ℕ → Bool
listed h [] = false
listed h (x ∷ xs) = x == h || listed h xs

-- Strictly ascending, so without repetition.
abbrev pub Ascends : List ℕ → Type 0
Ascends [] = Unit
Ascends (x ∷ xs) = All (λ y. x < y) xs × Ascends xs

module _ (B : Backend) where
  -- The handle names an object, and the object matches.
  abbrev pub Hit : BTreeMap (ObjectOf B) → Attributes → ℕ → Type 0
  Hit objects attrs h = (o : ObjectOf B) × (get objects h ≡ some o) × (B.matches o attrs ≡ true)

  key_above :
      {V : Type 0} (j h : ℕ) (m : BTreeMap V) (v : V) → IsAbove j m → get m h ≡ some v → j < h
  key_above j h m v a e = ground (arith, get-IsAbove j h m a)

  Hit-cons :
      (j : ℕ) (p : ObjectOf B) (objects : BTreeMap (ObjectOf B)) (attrs : Attributes)
      → IsAbove j objects
      → (h : ℕ) → Hit objects attrs h
      → Hit ((j, p) ∷ objects) attrs h
  unfolding get
  Hit-cons j p objects attrs a h (o, found, good) =
      let b = key_above j h objects o a found in (o, ground arith, good)

  pub matching_handles_sound :
      (objects : BTreeMap (ObjectOf B)) (attrs : Attributes)
      → IsSorted objects
      → All (Hit objects attrs) (matching_handles B objects attrs)
  unfolding matching_handles get
  matching_handles_sound [] attrs s = tt
  matching_handles_sound ((j, p) ∷ objects) attrs (a, s) =
      let rest =
        All-map (Hit objects attrs) (Hit ((j, p) ∷ objects) attrs) _ (Hit-cons j p objects attrs a)
          (matching_handles_sound objects attrs s) in
      elim (Bool-cases (B.matches p attrs)) [
        | inl good ↦ rw good ((p, ground arith, good), rest)
        | inr bad ↦ rw bad rest
      ]

  pub matching_handles_complete :
      (objects : BTreeMap (ObjectOf B)) (attrs : Attributes) (h : ℕ) (o : ObjectOf B)
      → get objects h ≡ some o
      → B.matches o attrs ≡ true
      → listed h (matching_handles B objects attrs) ≡ true
  unfolding matching_handles get listed
  matching_handles_complete [] attrs h o found good = cc
  matching_handles_complete ((j, p) ∷ objects) attrs h o found good =
      ground (arith, matching_handles_complete objects attrs h o)

  matching_handles-above :
      (k : ℕ) (objects : BTreeMap (ObjectOf B)) (attrs : Attributes)
      → IsAbove k objects
      → All (λ h. k < h) (matching_handles B objects attrs)
  unfolding matching_handles
  matching_handles-above k [] attrs a = tt
  matching_handles-above k ((j, p) ∷ objects) attrs (b, a) =
      let rest = matching_handles-above k objects attrs a in
      elim (Bool-cases (B.matches p attrs)) [ inl good ↦ rw good (b, rest) | inr bad ↦ rw bad rest ]

  pub matching_handles-Ascends :
      (objects : BTreeMap (ObjectOf B)) (attrs : Attributes)
      → IsSorted objects
      → Ascends (matching_handles B objects attrs)
  unfolding matching_handles
  matching_handles-Ascends [] attrs s = tt
  matching_handles-Ascends ((j, p) ∷ objects) attrs (a, s) =
      let rest = matching_handles-Ascends objects attrs s in
      elim (Bool-cases (B.matches p attrs)) [
        | inl good ↦ rw good (matching_handles-above j objects attrs a, rest)
        | inr bad ↦ rw bad rest
      ]
