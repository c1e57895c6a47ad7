-- ===== src/Provider/Attributes.antt =====
-- src/lib.rs: C_GetAttributeValue.
use osclientcerts.Prelude.{
  ℕ, ◌-◌, ◌%◌, Bool, true, false, ◌||◌, Option, none, some, List, [], ◌∷◌, ◌++◌, ok, err, Bytes,
  length, take, drop, map, ltb, ◌!=◌, if◌then◌else◌,
}
use osclientcerts.Cryptoki.{Rv, ckr_ok, ckr_arguments_bad, ckr_device_error, ckr_buffer_too_small}
use osclientcerts.Backend.{Backend}
use osclientcerts.Proxy.Calls.{get_attributes}
use osclientcerts.Provider.{Outcome, returns, waits, faults, Provider, call_manager}
use osclientcerts.Provider.Buffers.{copied}
use osclientcerts.Provider.Search.{max_template_count, CkAttribute}

module _ (ulong_mod : ℕ) where
  -- One turn of the loop: the attribute as it is left, and whether its buffer was too small.
  unfoldable pub fill : CkAttribute → Option Bytes → CkAttribute × Bool
  fill attr none = (record attr { value_len = ulong_mod - 1 }, false)
  fill attr (some value) = elim attr.value [
    | none ↦ (record attr { value_len = length value % ulong_mod }, false)
    | some memory ↦
        if ltb attr.value_len (length value)
        then (record attr { value_len = length value % ulong_mod }, true)
        else (
          record attr { value = some (copied value memory); value_len = length value % ulong_mod },
          false,
        )
  ]

  -- The loop over the template and the values, `zip`ped.
  unfoldable pub fill_all : List CkAttribute → List (Option Bytes) → List CkAttribute × Bool
  fill_all [] values = ([], false)
  fill_all (attr ∷ attrs) [] = (attr ∷ attrs, false)
  fill_all (attr ∷ attrs) (value ∷ values) =
      let (filled, small) = fill attr value in
      let (others, any_small) = fill_all attrs values in (filled ∷ others, small || any_small)

module _ (B : Backend) where
  unfoldable pub c_get_attribute_value :
      B.Os
      → ℕ
      → Option (List CkAttribute)
      → ℕ
      → Provider B
      → Outcome (Rv × Option (List CkAttribute) × Provider B)
  c_get_attribute_value os object none count s = returns (ckr_arguments_bad, none, s)
  c_get_attribute_value os object (some memory) count s =
      if ltb max_template_count count
      then returns (ckr_arguments_bad, some memory, s)
      else let template = take count memory in
        elim (call_manager B (λ _. ckr_arguments_bad)
          (get_attributes B os object (map (λ attr. attr.attr_type) template)) s) [
            | waits ↦ waits
            | faults ↦ faults
            | returns (err rv, t) ↦ returns (rv, some memory, t)
            | returns (ok values, t) ↦
                if length values != count
                then returns (ckr_device_error, some memory, t)
                else let (filled, small) = fill_all B.cryptoki.ulong_mod template values in
                  returns (
                    if small then ckr_buffer_too_small else ckr_ok,
                    some (filled ++ drop count memory),
                    t,
                  )
          ]
