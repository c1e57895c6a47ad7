-- ===== src/Provider/Lifecycle.antt =====
-- The life of the module, from C_Initialize to C_Finalize.
use osclientcerts.Prelude.{◌≡◌, refl, false, none}
use osclientcerts.Cryptoki.{ckr_ok, ckr_cryptoki_already_initialized, ckr_cryptoki_not_initialized}
use osclientcerts.Backend.{Backend}
use osclientcerts.Manager.State.{Manager}
use osclientcerts.Manager.Scan.{new}
use osclientcerts.Proxy.{spawn}
use osclientcerts.Proxy.Stopped.{stop-ends}
use osclientcerts.Provider.{returns, Provider, c_initialize, c_finalize}
use osclientcerts.Provider.Ready.{ready}

abbrev pub uninitialised : (B : Backend) → Provider B
uninitialised B = record { poisoned = false; slot = none }

module _ (B : Backend) (os : B.Os) (m : Manager B) where
  -- C_Initialize makes an uninitialised provider ready with a new manager, and refuses a ready one
  -- without changing it; C_Finalize, with any manager, returns and leaves the provider
  -- uninitialised, and refuses an uninitialised one.
  pub lifecycle :
      (c_initialize B os (uninitialised B) ≡ returns (ckr_ok, ready B (new B os)))
      × (c_initialize B os (ready B m) ≡ returns (ckr_cryptoki_already_initialized, ready B m))
      × (c_finalize B os (ready B m) ≡ returns (ckr_ok, uninitialised B))
      × (c_finalize B os (uninitialised B)
          ≡ returns (ckr_cryptoki_not_initialized, uninitialised B))
  unfolding c_initialize c_finalize spawn
  lifecycle = (refl, refl, rw (stop-ends B os m).0 refl, refl)
