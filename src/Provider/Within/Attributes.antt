-- ===== src/Provider/Within/Attributes.antt =====
-- C_GetAttributeValue writes no further than the caller's buffers.
use osclientcerts.Prelude.{
  ℕ, ◌≤◌, ◌≡◌, refl, ap, Option, none, some, List, [], ◌∷◌, Bytes, length, arith, ltb, map, All,
  Bool-cases, inl, inr,
}
use osclientcerts.Provider.Search.{CkAttribute}
use osclientcerts.Provider.Attributes.{fill, fill_all}
use osclientcerts.Provider.Within.{length-copied}

-- The type and the number of bytes behind the value pointer of an attribute.
abbrev pub extent : CkAttribute → ℕ × Option ℕ
extent attr = (attr.attr_type, elim attr.value [ none ↦ none | some memory ↦ some (length memory) ])

-- The length that the caller claims is no more than there is.
abbrev pub HasRoom : CkAttribute → Type 0
HasRoom attr = elim attr.value [ none ↦ Unit | some memory ↦ attr.value_len ≤ length memory ]

module _ (ulong_mod : ℕ) where
  extent_with :
      (attr_type : ℕ) (memory : Option Bytes) (value_len : ℕ) (value : Bytes)
      → HasRoom (record { attr_type = attr_type; value = memory; value_len = value_len })
      → extent
          (fill ulong_mod
            (record { attr_type = attr_type; value = memory; value_len = value_len })
            (some value)).0
        ≡ extent (record { attr_type = attr_type; value = memory; value_len = value_len })
  unfolding fill
  extent_with attr_type none value_len value room = refl
  extent_with attr_type (some memory) value_len value room =
      elim (Bool-cases (ltb value_len (length value))) [
        | inl small ↦ rw small refl
        | inr large ↦
            let bounded : length value ≤ length memory = ground arith in
            rw large (ap (λ n. (attr_type, some n)) (length-copied value memory bounded))
      ]

  extent-fill :
      (attr : CkAttribute) (value : Option Bytes)
      → HasRoom attr
      → extent (fill ulong_mod attr value).0 ≡ extent attr
  unfolding fill
  extent-fill attr none room = refl
  extent-fill attr (some value) room =
      extent_with attr.attr_type attr.value attr.value_len value room

  -- For a template whose lengths claim no more than there is, and any values, each attribute keeps
  -- its type, and there is as much memory behind each pointer as before: nothing is written past it.
  pub fill_all-within :
      (template : List CkAttribute) (values : List (Option Bytes))
      → All HasRoom template
      → map extent (fill_all ulong_mod template values).0 ≡ map extent template
  unfolding fill_all
  fill_all-within [] values room = refl
  fill_all-within (attr ∷ attrs) [] room = refl
  fill_all-within (attr ∷ attrs) (value ∷ values) room =
      rw (extent-fill attr value room.0, fill_all-within attrs values room.1) refl
