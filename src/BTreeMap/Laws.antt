-- ===== src/BTreeMap/Laws.antt =====
-- The laws of lookup, and a rule set of them.
use osclientcerts.Prelude.{ℕ, ◌≡◌, refl, none, some, [], ◌∷◌, arith, ◌==◌, if◌then◌else◌}
use osclientcerts.BTreeMap.{BTreeMap, get, insert, remove}

module _ {ℓ} {V : Type ℓ} where
  pub get-nil : (j : ℕ) → get {V = V} [] j ≡ none
  unfolding get
  get-nil j = refl

  pub get-insert :
      (m : BTreeMap V) (k : ℕ) (v : V) (j : ℕ)
      → get (insert m k v) j ≡ (if k == j then some v else get m j)
  unfolding get insert
  get-insert [] k v j = refl
  get-insert ((i, w) ∷ m) k v j = ground (arith, get-insert m k v j)

  pub get-remove :
      (m : BTreeMap V) (k j : ℕ) → get (remove m k) j ≡ (if k == j then none else get m j)
  unfolding get remove
  get-remove [] k j = ground arith
  get-remove ((i, w) ∷ m) k j = ground (arith, get-remove m k j)

  pub get-insert_self : (m : BTreeMap V) (k : ℕ) (v : V) → get (insert m k v) k ≡ some v
  get-insert_self m k v = ground (arith, get-insert m k v k)

  pub get-remove_self : (m : BTreeMap V) (k : ℕ) → get (remove m k) k ≡ none
  get-remove_self m k = ground (arith, get-remove m k k)

module _ {ℓ} {V : Type ℓ} where
  pub remove-insert : (m : BTreeMap V) (k : ℕ) (v : V) → remove (insert m k v) k ≡ remove m k
  unfolding insert remove
  remove-insert [] k v = ground arith
  remove-insert ((i, w) ∷ m) k v = ground (arith, remove-insert m k v)

pub ruleset map_laws = (get-nil, get-insert, get-remove)
