-- ===== src/Proxy.antt =====
-- src/manager.rs: `ManagerProxy`, the two channels between it and the thread of the `Manager`, and
-- that thread's loop. A channel is the list of the messages that were sent and not yet received; a
-- thread that runs owns its manager. The log is left out, and the thread does not panic.
pub mod Calls
pub mod Identical
pub mod Stopped
pub mod Replies
pub mod Threads
use osclientcerts.Prelude.{
  Bool, true, false, Option, none, some, List, [], ◌∷◌, ◌++◌, Result, ok, err, if◌then◌else◌,
}
use osclientcerts.Backend.{Backend}
use osclientcerts.Manager.State.{Manager}
use osclientcerts.Manager.Scan.{new}
use osclientcerts.Manager.Requests.{ManagerArguments, ManagerReturnValue, dispatch}

pub record ManagerProxy (B : Backend) : Type 0 where
  -- What `sender` has sent and the thread has not received, and the other direction.
  pub requests : List ManagerArguments
  pub replies : List ManagerReturnValue
  -- The manager, as long as the thread runs and holds its ends of the channels.
  pub thread : Option (Manager B)
  -- `thread_handle.is_some()`
  pub thread_handle : Bool

-- `matches!(&results, ManagerReturnValue::Stop(_))`
unfoldable pub stop_after_send : ManagerReturnValue → Bool
stop_after_send (ManagerReturnValue.stop _) = true
stop_after_send _ = false

-- `$return_type(result)`, or the error that both other arms of `manager_proxy_fn_impl!` give.
abbrev pub expected {ℓ} : {A : Type ℓ} → A → Option A → A
expected failure none = failure
expected failure (some result) = result

module _ (B : Backend) where
  -- `ManagerProxy::new`: the thread begins with a scan, in the state of the system at that time.
  unfoldable pub spawn : B.Os → ManagerProxy B
  spawn os = record { requests = []; replies = []; thread = some (new B os); thread_handle = true }

  -- One turn of the thread's loop, for a request that it has received.
  unfoldable pub turn :
      B.Os → ManagerArguments → Manager B → ManagerReturnValue × Option (Manager B)
  turn os arguments m =
      let (results, s) = dispatch B os arguments m in
      (results, if stop_after_send results then none else some s)

  -- The loop, until the thread has ended or waits for another request.
  unfoldable pub serve :
      B.Os
      → List ManagerArguments
      → Option (Manager B)
      → List ManagerArguments × List ManagerReturnValue × Option (Manager B)
  serve os requests none = (requests, [], none)
  serve os [] (some m) = ([], [], some m)
  serve os (arguments ∷ requests) (some m) =
      let (results, thread) = turn os arguments m in
      let (left, replies, last) = serve os requests thread in (left, results ∷ replies, last)

  -- `self.sender.send(args)`: an error if the thread has ended.
  unfoldable pub send : ManagerArguments → ManagerProxy B → Result (ManagerProxy B) Unit
  send arguments p = elim p.thread [
    | none ↦ err tt
    | some _ ↦ ok (record p { requests = p.requests ++ (arguments ∷ []) })
  ]

  -- `self.receiver.recv()`, while the thread goes on: `none` if it waits for ever, an error if there
  -- is no message and the thread has ended.
  unfoldable pub recv :
      B.Os → ManagerProxy B → Option (Result ManagerReturnValue Unit × ManagerProxy B)
  recv os p =
      let (requests, replies, thread) = serve os p.requests p.thread in
      let q = record p { requests = requests; thread = thread } in
      elim (p.replies ++ replies) [
        | [] ↦ elim thread [ none ↦ some (err tt, record q { replies = [] }) | some _ ↦ none ]
        | result ∷ rest ↦ some (ok result, record q { replies = rest })
      ]

  unfoldable pub proxy_call :
      B.Os
      → ManagerArguments
      → ManagerProxy B
      → Option (Result ManagerReturnValue Unit × ManagerProxy B)
  proxy_call os arguments p = elim (send arguments p) [
    | err _ ↦ some (err tt, p)
    | ok q ↦ recv os q
  ]

  -- `manager_proxy_fn_impl!`
  unfoldable pub proxy_fn :
      {A : Type 0}
      → A
      → (ManagerReturnValue → Option A)
      → B.Os
      → ManagerArguments
      → ManagerProxy B
      → Option (A × ManagerProxy B)
  proxy_fn failure return_type os arguments p = elim (proxy_call os arguments p) [
    | none ↦ none
    | some (err _, q) ↦ some (failure, q)
    | some (ok result, q) ↦ some (expected failure (return_type result), q)
  ]

  -- `ManagerProxy::stop`: `none` if it waits for ever for the thread to end.
  unfoldable pub stop : B.Os → ManagerProxy B → Option (Result (Unit {0}) Unit × ManagerProxy B)
  unfolding proxy_fn
  stop os p = elim (proxy_fn (err tt) stopped os ManagerArguments.stop p) [
    | none ↦ none
    | some (err _, q) ↦ some (err tt, q)
    | some (ok _, q) ↦
        if q.thread_handle
        then elim q.thread [
          | none ↦ some (ok tt, record q { thread_handle = false })
          | some _ ↦ none
        ]
        else some (err tt, q)
  ]
    where
      stopped : ManagerReturnValue → Option (Result (Unit {0}) Unit)
      stopped (ManagerReturnValue.stop result) = some result
      stopped _ = none
