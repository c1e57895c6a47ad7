-- ===== src/Proxy/Threads/GoesOn.antt =====
-- Runs in which no call begins.
use osclientcerts.Prelude.{◌≡◌, Bool, true, false}
use osclientcerts.Backend.{Backend}
use osclientcerts.Manager.State.{Manager}
use osclientcerts.Proxy.Threads.{
  System, Step, call, acquire, sent, not_sent, received, disconnected, served, released, Reach,
  later,
}

module _ (B : Backend) (A : Type 0) where
  -- The step begins a call.
  unfoldable pub is_call : {s t : System B A} → Step B A s t → Bool
  is_call (call i b at) = true
  is_call (acquire i b h at) = false
  is_call (sent i b a k q at e) = false
  is_call (not_sent os i b a k at e) = false
  is_call (received i b k r rest at e) = false
  is_call (disconnected i b k at e h) = false
  is_call (served os a rest m e h) = false
  is_call (released i b a at) = false

  -- Steps of which none begins a call.
  pub data GoesOn (s : System B A) : System B A → Type 0 where
    here : GoesOn s s
    then_step :
        {t u : System B A} → GoesOn s t → (step : Step B A t u) → is_call step ≡ false → GoesOn s u

  pub GoesOn-join : {s t u : System B A} → GoesOn s t → GoesOn t u → GoesOn s u
  GoesOn-join first here = first
  GoesOn-join first (then_step more step quiet) = then_step (GoesOn-join first more) step quiet

  pub GoesOn-Reach : {m : Manager B} {s t : System B A} → Reach B A m s → GoesOn s t → Reach B A m t
  GoesOn-Reach reached here = reached
  GoesOn-Reach reached (then_step more step quiet) = later (GoesOn-Reach reached more) step
