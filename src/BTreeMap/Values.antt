-- ===== src/BTreeMap/Values.antt =====
-- Predicates on all the values of a map, and maps that only gain entries.
use osclientcerts.Prelude.{ℕ, ◌≡◌, some, none, [], ◌==◌, arith, inl, inr, Bool-cases, ==_iff, subst}
use osclientcerts.BTreeMap.{BTreeMap, get, insert, remove}
use osclientcerts.BTreeMap.Laws.{get-nil, get-insert, get-remove}

-- Every entry's value satisfies the predicate, which may name the key.
pub record AllValues {ℓ κ} {V : Type ℓ} (P : ℕ → V → Type κ) (m : BTreeMap V) : Type (ℓ ⊔ κ) where
  pub at : (k : ℕ) (v : V) → get m k ≡ some v → P k v

-- What the first map has, the second has too.
pub record Grows {ℓ} {V : Type ℓ} (m n : BTreeMap V) : Type ℓ where
  pub at : (k : ℕ) (v : V) → get m k ≡ some v → get n k ≡ some v

module _ {ℓ κ} {V : Type ℓ} {P : ℕ → V → Type κ} where
  pub AllValues-nil : AllValues P []
  AllValues-nil = record { at = λ k v e. cc (get-nil {V = V} k) }

  pub AllValues-insert :
      (m : BTreeMap V) (k : ℕ) (v : V) → P k v → AllValues P m → AllValues P (insert m k v)
  AllValues-insert m k v p all = record {
    at = λ j w e. elim (Bool-cases (k == j)) [
      | inl same ↦
          subst (λ i. P i w) ((==_iff k j).0 same)
            (subst (λ x. P k x) (ground (arith, get-insert m k v j)) p)
      | inr other ↦ all.at j w (ground (arith, get-insert m k v j))
    ];
  }

  pub AllValues-remove : (m : BTreeMap V) (k : ℕ) → AllValues P m → AllValues P (remove m k)
  AllValues-remove m k all = record { at = λ j w e. all.at j w (ground (arith, get-remove m k j)) }

pub AllValues-map {ℓ κ} :
    {V : Type ℓ} {P Q : ℕ → V → Type κ} (m : BTreeMap V)
    → ((k : ℕ) (v : V) → P k v → Q k v)
    → AllValues P m
    → AllValues Q m
AllValues-map m f all = record { at = λ k v e. f k v (all.at k v e) }

module _ {ℓ} {V : Type ℓ} where
  pub Grows-refl : (m : BTreeMap V) → Grows m m
  Grows-refl m = record { at = λ k v e. e }

  pub Grows-trans : {m n o : BTreeMap V} → Grows m n → Grows n o → Grows m o
  Grows-trans g h = record { at = λ k v e. h.at k v (g.at k v e) }

  pub Grows-insert : (m : BTreeMap V) (k : ℕ) (v : V) → get m k ≡ none → Grows m (insert m k v)
  Grows-insert m k v free = record { at = λ j w e. ground (arith, get-insert m k v j) }
