-- ===== src/Provider/Live.antt =====
-- That no call waits for ever: what the entry points share.
use osclientcerts.Prelude.{
  ℕ, ◌≡◌, refl, Bool, if◌then◌else◌, true, false, some, Result, ok, err, Bytes, ltb, Bool-cases,
  Option-cases, Result-cases, inl, inr,
}
use osclientcerts.Cryptoki.{Rv, ckr_device_error}
use osclientcerts.Backend.{Backend}
use osclientcerts.Manager.State.{Manager}
use osclientcerts.Proxy.{ManagerProxy}
use osclientcerts.Proxy.Calls.{Answer}
use osclientcerts.Proxy.Identical.{idle}
use osclientcerts.Provider.{Outcome, returns, waits, faults, Provider, Step, call_manager, status}
use osclientcerts.Provider.Buffers.{Output, deliver, handed_out}
use osclientcerts.Provider.Calls.{settle}
use osclientcerts.Provider.Ready.{ready}
use osclientcerts.Provider.Lifecycle.{uninitialised}

-- A provider between calls: not initialised, or with a manager's thread that waits for a request.
pub data IsSettled (B : Backend) : Provider B → Type 0 where
  unused : IsSettled B (uninitialised B)
  used : (m : Manager B) → IsSettled B (ready B m)

-- A call does not wait for ever, and a provider that it returns is between calls again.
abbrev pub Lives : (B : Backend) → Outcome (Rv × Provider B) → Type 0
Lives B (returns (_, s)) = IsSettled B s
Lives B waits = ⊥
Lives B faults = Unit

-- A function of the proxy is answered by a thread that waits for a request, which then waits again.
abbrev pub Serves : (B : Backend) {A E : Type 0} → (ManagerProxy B → Answer B A E) → Type 0
Serves B {A} {E} f =
    (m : Manager B)
    → (a : Result A E) × (after : Manager B) × (f (idle B m) ≡ some (a, idle B after))

-- A part of an entry point that returns.
pub record Returns (B : Backend) {A : Type 0} (step : Step B A) : Type 0 where
  pub result : Result A Rv
  pub after : Provider B
  pub same : step ≡ returns (result, after)
  pub settled : IsSettled B after

module _ (B : Backend) where
  module _ {A E : Type 0} (to_rv : E → Rv) (f : ManagerProxy B → Answer B A E) where
    answered :
        (m after : Manager B) (a : Result A E)
        → f (idle B m) ≡ some (a, idle B after)
        → Returns B (call_manager B to_rv f (ready B m))
    unfolding call_manager
    answered m after (ok a) e = record {
      result = ok a;
      after = ready B after;
      same = rw e refl;
      settled = used after;
    }
    answered m after (err e) h = record {
      result = err (to_rv e);
      after = ready B after;
      same = rw h refl;
      settled = used after;
    }

    pub call_manager-Returns :
        Serves B f → (s : Provider B) → IsSettled B s → Returns B (call_manager B to_rv f s)
    unfolding call_manager
    call_manager-Returns serves _ unused = record {
      result = err ckr_device_error;
      after = uninitialised B;
      same = refl;
      settled = unused;
    }
    call_manager-Returns serves _ (used m) = let (a, after, e) = serves m in answered m after a e

  status_of :
      (r : Result (Unit {0}) Rv) (t : Provider B)
      → IsSettled B t
      → Lives B (status B (returns (r, t)))
  unfolding status
  status_of (ok _) t h = h
  status_of (err _) t h = h

  pub status-Lives : (step : Step B (Unit {0})) → Returns B step → Lives B (status B step)
  status-Lives step r = rw r.same (status_of r.result r.after r.settled)

  module _ (get_length : Provider B → Step B ℕ) (operation : Provider B → Step B Bytes)
      (returning : (t : Provider B) → IsSettled B t → Returns B (operation t)) where
    after_operation :
        (out : Output) (needed : ℕ) (s t : Provider B)
        → get_length s ≡ returns (ok needed, t)
        → IsSettled B t
        → Lives B (settle (handed_out B (deliver B get_length operation out s)))
    unfolding deliver
    after_operation out needed s t e h = elim (Option-cases out.memory) [
      | inl null ↦ rw (deliver, e, null) h
      | inr (memory, given) ↦ elim (Bool-cases (ltb out.len needed)) [
        | inl small ↦ rw (deliver, e, given, small) h
        | inr large ↦
            let last = returning t h in
            elim (Result-cases last.result) [
              | inl (rv, f) ↦ rw (deliver, e, given, large, last.same, f) last.settled
              | inr (output, f) ↦ rw (deliver, e, given, large, last.same, f) last.settled
            ]
      ]
    ]

    pub deliver-Lives :
        (out : Output) (s : Provider B)
        → Returns B (get_length s)
        → Lives B (settle (handed_out B (deliver B get_length operation out s)))
    unfolding deliver
    deliver-Lives out s r = elim (Result-cases r.result) [
      | inl (rv, f) ↦ rw (deliver, r.same, f) r.settled
      | inr (needed, f) ↦ after_operation out needed s r.after (rw f at r.same) r.settled
    ]

  -- A guard in front of a call.
  pub guard-Lives :
      (b : Bool) (x y : Outcome (Rv × Provider B))
      → Lives B x
      → Lives B y
      → Lives B (if b then x else y)
  guard-Lives true x y hx hy = hx
  guard-Lives false x y hx hy = hy

  pub guard_settled-Lives :
      {A : Type 0} (b : Bool) (x y : Outcome (Rv × A × Provider B))
      → Lives B (settle x)
      → Lives B (settle y)
      → Lives B (settle (if b then x else y))
  guard_settled-Lives true x y hx hy = hx
  guard_settled-Lives false x y hx hy = hy
