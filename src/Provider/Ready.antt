-- ===== src/Provider/Ready.antt =====
-- An initialised provider between calls, on which a call of the proxy is a call of the manager.
use osclientcerts.Prelude.{◌≡◌, refl, false, some, Result, ok, err, Option}
use osclientcerts.Cryptoki.{Rv}
use osclientcerts.Backend.{Backend}
use osclientcerts.Manager.State.{Manager}
use osclientcerts.Proxy.{ManagerProxy}
use osclientcerts.Proxy.Identical.{idle}
use osclientcerts.Provider.{returns, Provider, call_manager}

abbrev pub ready : (B : Backend) → Manager B → Provider B
ready B m = record { poisoned = false; slot = some (idle B m) }

module _ (B : Backend) {A E : Type 0} (to_rv : E → Rv) where
  pub call_manager-ok :
      (f : ManagerProxy B → Option (Result A E × ManagerProxy B)) (m m_after : Manager B) {a : A}
      → f (idle B m) ≡ some (ok a, idle B m_after)
      → call_manager B to_rv f (ready B m) ≡ returns (ok a, ready B m_after)
  unfolding call_manager
  call_manager-ok f m m_after e = rw e refl

  pub call_manager-err :
      (f : ManagerProxy B → Option (Result A E × ManagerProxy B)) (m m_after : Manager B) {e : E}
      → f (idle B m) ≡ some (err e, idle B m_after)
      → call_manager B to_rv f (ready B m) ≡ returns (err (to_rv e), ready B m_after)
  unfolding call_manager
  call_manager-err f m m_after e = rw e refl
