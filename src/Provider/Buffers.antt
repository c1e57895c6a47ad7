-- ===== src/Provider/Buffers.antt =====
-- src/lib.rs: the bound on data, `input_slice`, and how the result of an operation is handed out.
use osclientcerts.Prelude.{
  ℕ, ◌*◌, ◌%◌, Option, none, some, [], ◌++◌, Result, ok, err, Bytes, length, take, drop, ltb, ◌==◌,
  if◌then◌else◌,
}
use osclientcerts.Cryptoki.{Rv, ckr_ok, ckr_arguments_bad, ckr_buffer_too_small}
use osclientcerts.Backend.{Backend}
use osclientcerts.Provider.{Outcome, returns, waits, faults, Provider, Step}

abbrev pub max_data_len : ℕ
max_data_len = 64 * 1024

unfoldable pub input_slice : Option Bytes → ℕ → Result Bytes Rv
input_slice none len = if len == 0 then ok [] else err ckr_arguments_bad
input_slice (some bytes) len = ok (take len bytes)

-- The memory behind a pointer after `copy_nonoverlapping` to it.
abbrev pub copied : Bytes → Bytes → Bytes
copied output memory = output ++ drop (length output) memory

-- The caller's memory for a result and `*pulLen`.
pub record Output : Type 0 where
  pub memory : Option Bytes
  pub len : ℕ

module _ (B : Backend) where
  -- What C_Sign, C_Encrypt, C_Decrypt and their C_…Final do behind their checks, given the length
  -- query and the operation. Each of the two takes the lock anew.
  unfoldable pub deliver :
      (Provider B → Step B ℕ)
      → (Provider B → Step B Bytes)
      → Output
      → Provider B
      → Outcome (Rv × Output × Provider B)
  deliver get_length operation out s = elim (get_length s) [
    | waits ↦ waits
    | faults ↦ faults
    | returns (err rv, t) ↦ returns (rv, out, t)
    | returns (ok needed, t) ↦ elim out.memory [
      | none ↦ returns (ckr_ok, record out { len = needed % B.cryptoki.ulong_mod }, t)
      | some memory ↦
          if ltb out.len needed
          then returns (ckr_buffer_too_small, record out { len = needed % B.cryptoki.ulong_mod }, t)
          else elim (operation t) [
            | waits ↦ waits
            | faults ↦ faults
            | returns (err rv, u) ↦ returns (rv, out, u)
            | returns (ok output, u) ↦ returns (
              ckr_ok,
              record {
                memory = some (copied output memory);
                len = length output % B.cryptoki.ulong_mod;
              },
              u,
            )
          ]
    ]
  ]

  -- The output of an entry point whose length pointer is not null.
  abbrev pub handed_out :
      Outcome (Rv × Output × Provider B) → Outcome (Rv × Option Output × Provider B)
  handed_out (returns (rv, out, s)) = returns (rv, some out, s)
  handed_out waits = waits
  handed_out faults = faults
