-- ===== src/Provider/Within.antt =====
-- What is written of a result lies within the caller's memory.
pub mod Sign
pub mod Decrypt
pub mod Encrypt
pub mod Search
pub mod Attributes
use osclientcerts.Prelude.{
  ℕ, ◌%◌, ◌≤◌, ◌≡◌, refl, ap, sym, ◌∙◌, Option, none, some, Result, ok, err, Bytes, length, drop,
  ◌++◌, ltb, arith, length-append, length-drop, Bool-cases, inl, inr, true, false,
}
use osclientcerts.Cryptoki.{Rv}
use osclientcerts.Backend.{Backend}
use osclientcerts.Manager.State.{Manager}
use osclientcerts.Proxy.{ManagerProxy}
use osclientcerts.Proxy.Identical.{idle}
use osclientcerts.Provider.{Outcome, returns, waits, faults, Provider, Step, call_manager}
use osclientcerts.Provider.Buffers.{Output, copied, deliver, handed_out}
use osclientcerts.Provider.Delivery.{to}
use osclientcerts.Provider.Ready.{ready}

-- The result of a call of the manager, as an entry point sees it.
abbrev pub carried : (B : Backend) {A E : Type 0} → (E → Rv) → Result A E → Manager B → Step B A
carried B to_rv (err e) m = returns (err (to_rv e), ready B m)
carried B to_rv (ok a) m = returns (ok a, ready B m)

pub call_manager-carried :
    (B : Backend) {A E : Type 0} (to_rv : E → Rv)
    (f : ManagerProxy B → Option (Result A E × ManagerProxy B)) (m m_after : Manager B)
    (r : Result A E)
    → f (idle B m) ≡ some (r, idle B m_after)
    → call_manager B to_rv f (ready B m) ≡ carried B to_rv r m_after
unfolding call_manager
call_manager-carried B to_rv f m m_after (err e) h = rw h refl
call_manager-carried B to_rv f m m_after (ok a) h = rw h refl

pub length-copied :
    (output memory : Bytes)
    → length output ≤ length memory
    → length (copied output memory) ≡ length memory
length-copied output memory h =
    omega (
      arith,
      length-append output (drop (length output) memory),
      length-drop (length output) memory,
    )

-- The number of bytes behind the caller's pointer after a call that returns.
abbrev pub memory_after : {B : Backend} → Outcome (Rv × Option Output × Provider B) → Option ℕ
memory_after (returns (_, some out, _)) = elim out.memory [
  | none ↦ none
  | some memory ↦ some (length memory)
]
memory_after _ = none

module _ (B : Backend) {E : Type 0} (to_rv : E → Rv) (m m_after : Manager B) (memory : Bytes)
    (len : ℕ) where
  pub deliver-within :
      (get_length : Provider B → Step B ℕ) (operation : Provider B → Step B Bytes)
      (needed : Result ℕ E) (output : Result Bytes E)
      → get_length (ready B m) ≡ carried B to_rv needed m
      → operation (ready B m) ≡ carried B to_rv output m_after
      → ((n : ℕ) (bytes : Bytes) → needed ≡ ok n → output ≡ ok bytes → length bytes ≤ n)
      → len ≤ length memory
      → memory_after
          (handed_out B (deliver B get_length operation (to (some memory) len) (ready B m)))
        ≡ some (length memory)
  unfolding deliver
  deliver-within get_length operation (err e) output el eo law h = rw (handed_out, el) refl
  deliver-within get_length operation (ok n) (err e) el eo law h = elim (Bool-cases (ltb len n)) [
    | inl small ↦ rw (handed_out, el, small) refl
    | inr large ↦ rw (handed_out, el, large, eo) refl
  ]
  deliver-within get_length operation (ok n) (ok bytes) el eo law h =
      elim (Bool-cases (ltb len n)) [
        | inl small ↦ rw (handed_out, el, small) refl
        | inr large ↦
            let fits : n ≤ len = ground arith in
            let bounded : length bytes ≤ length memory = omega (arith, law n bytes refl refl) in
            rw (handed_out, el, large, eo) (ap some (length-copied bytes memory bounded))
      ]
