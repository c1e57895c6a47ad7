-- ===== src/Provider/Search.antt =====
-- src/lib.rs: C_FindObjectsInit, C_FindObjects and C_FindObjectsFinal.
use osclientcerts.Prelude.{
  ℕ, ◌*◌, ◌%◌, Option, none, some, List, [], ◌∷◌, ◌++◌, Result, ok, err, ◌>>=◌, Bytes, length, take,
  drop, ltb, ◌==◌, if◌then◌else◌,
}
use osclientcerts.Cryptoki.{Rv, ckr_ok, ckr_arguments_bad, ckr_device_error}
use osclientcerts.Backend.{Backend, Attributes}
use osclientcerts.Proxy.Calls.{start_search, search, clear_search}
use osclientcerts.Provider.{Outcome, returns, waits, faults, Provider, call_manager, status}
use osclientcerts.Provider.Buffers.{input_slice}

abbrev pub max_template_count : ℕ
max_template_count = 128

abbrev pub max_attribute_value_len : ℕ
max_attribute_value_len = 64 * 1024

-- `CK_ATTRIBUTE`
pub record CkAttribute : Type 0 where
  pub attr_type : ℕ
  pub value : Option Bytes
  pub value_len : ℕ

-- The loop over the template, which returns early.
unfoldable pub read_template : List CkAttribute → Result Attributes Rv
unfolding input_slice
read_template [] = ok []
read_template (attr ∷ attrs) =
    let rest = read_template attrs in
    if ltb max_attribute_value_len attr.value_len then err ckr_arguments_bad else (do
      slice ← input_slice attr.value attr.value_len
      others ← rest
      ok ((attr.attr_type, slice) ∷ others))

module _ (B : Backend) where
  unfoldable pub c_find_objects_init :
      B.Os → ℕ → Option (List CkAttribute) → ℕ → Provider B → Outcome (Rv × Provider B)
  c_find_objects_init os session none count s = returns (ckr_arguments_bad, s)
  c_find_objects_init os session (some template) count s =
      if ltb max_template_count count
      then returns (ckr_arguments_bad, s)
      else elim (read_template (take count template)) [
        | err rv ↦ returns (rv, s)
        | ok attrs ↦
            status B (call_manager B (λ _. ckr_arguments_bad) (start_search B os session attrs) s)
      ]

  -- The memory behind `phObject`, and `*pulObjectCount`.
  unfoldable pub c_find_objects :
      B.Os
      → ℕ
      → Option (List ℕ)
      → ℕ
      → Option ℕ
      → Provider B
      → Outcome (Rv × Option (List ℕ) × Option ℕ × Provider B)
  c_find_objects os session none max_count object_count s =
      returns (ckr_arguments_bad, none, object_count, s)
  c_find_objects os session (some memory) max_count none s =
      returns (ckr_arguments_bad, some memory, none, s)
  c_find_objects os session (some memory) max_count (some object_count) s =
      if max_count == 0
      then returns (ckr_arguments_bad, some memory, some object_count, s)
      else elim (call_manager B (λ _. ckr_arguments_bad) (search B os session max_count) s) [
        | waits ↦ waits
        | faults ↦ faults
        | returns (err rv, t) ↦ returns (rv, some memory, some object_count, t)
        | returns (ok handles, t) ↦
            if ltb max_count (length handles)
            then returns (ckr_device_error, some memory, some object_count, t)
            else returns (
              ckr_ok,
              some (take max_count handles ++ drop (length (take max_count handles)) memory),
              some (length handles % B.cryptoki.ulong_mod),
              t,
            )
      ]

  unfoldable pub c_find_objects_final : B.Os → ℕ → Provider B → Outcome (Rv × Provider B)
  c_find_objects_final os session s =
      status B (call_manager B (λ _. ckr_device_error) (clear_search B os session) s)
