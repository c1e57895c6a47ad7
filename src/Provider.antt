-- ===== src/Provider.antt =====
-- src/lib.rs: the slot of the proxy behind its lock, how an entry point reaches the manager, and
-- C_Initialize and C_Finalize. A caller's pointer is an `Option`: `none` if it is null, and else what
-- it points to. Memory that an entry point writes is taken and returned.
pub mod Buffers
pub mod Sign
pub mod Decrypt
pub mod Encrypt
pub mod Sessions
pub mod Search
pub mod Attributes
pub mod Ready
pub mod Delivery
pub mod Lifecycle
pub mod Faults
pub mod Within
pub mod Calls
pub mod Information
pub mod Unsupported
pub mod FunctionList
pub mod OnWindows
pub mod Advertised
pub mod Live
pub mod Liveness
use osclientcerts.Prelude.{Bool, Option, none, some, Result, ok, err, if◌then◌else◌}
use osclientcerts.Cryptoki.{
  Rv, ckr_ok, ckr_device_error, ckr_cryptoki_already_initialized, ckr_cryptoki_not_initialized,
}
use osclientcerts.Backend.{Backend}
use osclientcerts.Proxy.{ManagerProxy, spawn, stop}
use osclientcerts.Proxy.Calls.{Answer}

-- A call returns, waits for ever, or has undefined behaviour: it reads through a null pointer.
pub data Outcome {ℓ} (A : Type ℓ) : Type ℓ where
  returns : A → Outcome A
  waits : Outcome A
  faults : Outcome A

-- `MANAGER_PROXY`
pub record Provider (B : Backend) : Type 0 where
  -- A thread has panicked with the lock.
  pub poisoned : Bool
  pub slot : Option (ManagerProxy B)

-- A part of an entry point that may return early with a code.
abbrev pub Step : Backend → Type 0 → Type 0
Step B A = Outcome (Result A Rv × Provider B)

module _ (B : Backend) where
  -- `try_to_get_manager_guard!`, `manager_guard_to_manager!` and a call of a function of the proxy,
  -- whose error is the code to return.
  unfoldable pub call_manager :
      {A E : Type 0} → (E → Rv) → (ManagerProxy B → Answer B A E) → Provider B → Step B A
  call_manager to_rv f s = if s.poisoned then returns (err ckr_device_error, s) else elim s.slot [
    | none ↦ returns (err ckr_device_error, s)
    | some p ↦ elim (f p) [
      | none ↦ waits
      | some (err e, q) ↦ returns (err (to_rv e), record s { slot = some q })
      | some (ok a, q) ↦ returns (ok a, record s { slot = some q })
    ]
  ]

  -- The code of a call without output: `CKR_OK` at the end.
  unfoldable pub status : Step B (Unit {0}) → Outcome (Rv × Provider B)
  status (returns (err rv, s)) = returns (rv, s)
  status (returns (ok _, s)) = returns (ckr_ok, s)
  status waits = waits
  status faults = faults

  -- The clean-up that it starts on Windows is in Provider.OnWindows.
  unfoldable pub c_initialize : B.Os → Provider B → Outcome (Rv × Provider B)
  c_initialize os s = if s.poisoned then returns (ckr_device_error, s) else elim s.slot [
    | some _ ↦ returns (ckr_cryptoki_already_initialized, s)
    | none ↦ returns (ckr_ok, record s { slot = some (spawn B os) })
  ]

  unfoldable pub c_finalize : B.Os → Provider B → Outcome (Rv × Provider B)
  c_finalize os s = if s.poisoned then returns (ckr_device_error, s) else elim s.slot [
    | none ↦ returns (ckr_cryptoki_not_initialized, s)
    | some p ↦ elim (stop B os p) [
      | none ↦ waits
      | some (ok _, q) ↦ returns (ckr_ok, record s { slot = none })
      | some (err _, q) ↦ returns (ckr_device_error, record s { slot = none })
    ]
  ]
