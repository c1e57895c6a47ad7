-- ===== src/Proxy/Stopped.antt =====
-- Stopping the proxy.
use osclientcerts.Prelude.{◌≡◌, refl, false, none, some, [], ok, err}
use osclientcerts.Backend.{Backend}
use osclientcerts.Manager.State.{Manager}
use osclientcerts.Manager.Requests.{ManagerArguments, dispatch}
use osclientcerts.Proxy.{
  ManagerProxy, stop_after_send, turn, serve, send, recv, proxy_call, proxy_fn, stop,
}
use osclientcerts.Proxy.Identical.{idle}

-- A proxy whose thread has ended and was joined.
abbrev pub finished : (B : Backend) → ManagerProxy B
finished B = record { requests = []; replies = []; thread = none; thread_handle = false }

-- Stopping a proxy whose thread waits for a request succeeds and ends the thread; after that every
-- request is an error that changes nothing, and so is stopping again.
pub stop-ends :
    (B : Backend) (os : B.Os) (m : Manager B)
    → (stop B os (idle B m) ≡ some (ok tt, finished B))
      × ((later : B.Os) (a : ManagerArguments)
          → proxy_call B later a (finished B) ≡ some (err tt, finished B))
      × ((later : B.Os) → stop B later (finished B) ≡ some (err tt, finished B))
unfolding dispatch stop_after_send turn serve send recv proxy_call proxy_fn stop
stop-ends B os m = (refl, λ later a. refl, λ later. refl)
