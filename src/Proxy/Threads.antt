-- ===== src/Proxy/Threads.antt =====
-- src/lib.rs and src/manager.rs: threads that call entry points at the same time. `MANAGER_PROXY` is
-- a lock around the proxy; what an entry point asks of the proxy it asks while it has the lock; and
-- the manager's thread goes on beside them. The model has one proxy, between C_Initialize and
-- C_Finalize's taking it out of its slot; no thread panics.
pub mod Serial
pub mod Invariant
pub mod Atomic
pub mod Exclusive
pub mod GoesOn
pub mod Returns
use osclientcerts.Prelude.{
  ℕ, ◌≡◌, Bool, true, false, Option, none, some, List, [], ◌∷◌, ◌++◌, Result, ok, err, ◌==◌,
  if◌then◌else◌,
}
use osclientcerts.Backend.{Backend}
use osclientcerts.Manager.State.{Manager}
use osclientcerts.Manager.Requests.{ManagerArguments, ManagerReturnValue}
use osclientcerts.Proxy.{ManagerProxy, turn, send, expected}
use osclientcerts.Proxy.Identical.{idle}

-- What an entry point does with the lock: it asks the proxy, goes on with the reply (an error if the
-- thread has ended), and returns in the end.
pub data Body (A : Type 0) : Type 0 where
  done : A → Body A
  ask : ManagerArguments → (Result ManagerReturnValue Unit → Body A) → Body A

-- `manager_proxy_fn_impl!`, and what follows it.
unfoldable pub ask_fn :
    {A C : Type 0} → C → (ManagerReturnValue → Option C) → ManagerArguments → (C → Body A) → Body A
ask_fn failure return_type arguments next = ask arguments λ answer. elim answer [
  | err _ ↦ next failure
  | ok result ↦ next (expected failure (return_type result))
]

-- A caller's thread: before its first call, waiting for the lock, running with the lock, waiting for
-- a reply with the lock, or behind a call. The first body is that of the whole call.
pub data Pc (A : Type 0) : Type 0 where
  outside : Pc A
  waiting : Body A → Pc A
  running : Body A → Body A → Pc A
  awaiting : Body A → (Result ManagerReturnValue Unit → Body A) → Pc A

-- A call that has returned: the thread, what it did and what it returned.
pub record Event (A : Type 0) : Type 0 where
  pub caller : ℕ
  pub body : Body A
  pub result : A

pub record System (B : Backend) (A : Type 0) : Type 0 where
  -- Who has the lock of `MANAGER_PROXY`.
  pub lock : Option ℕ
  pub proxy : ManagerProxy B
  pub pc : ℕ → Pc A
  -- The calls that have returned, the last one first.
  pub log : List (Event A)

unfoldable pub update {ℓ} : {A : Type ℓ} → (ℕ → A) → ℕ → A → ℕ → A
update f i a j = if i == j then a else f j

module _ (B : Backend) (A : Type 0) where
  abbrev pub start : Manager B → System B A
  start m = record { lock = none; proxy = idle B m; pc = λ _. outside; log = [] }

  pub data Step (s : System B A) : System B A → Type 0 where
    -- An entry point is called.
    call :
        (i : ℕ) (b : Body A)
        → s.pc i ≡ outside
        → Step s (record s { pc = update s.pc i (waiting b) })
    -- `try_to_get_manager_guard!`
    acquire :
        (i : ℕ) (b : Body A)
        → s.lock ≡ none
        → s.pc i ≡ waiting b
        → Step s (record s { lock = some i; pc = update s.pc i (running b b) })
    -- `self.sender.send(args)`
    sent :
        (i : ℕ) (b : Body A) (a : ManagerArguments) (k : Result ManagerReturnValue Unit → Body A)
        (q : ManagerProxy B)
        → s.pc i ≡ running b (ask a k)
        → send B a s.proxy ≡ ok q
        → Step s (record s { proxy = q; pc = update s.pc i (awaiting b k) })
    not_sent :
        (os : B.Os) (i : ℕ) (b : Body A) (a : ManagerArguments)
        (k : Result ManagerReturnValue Unit → Body A)
        → s.pc i ≡ running b (ask a k)
        → send B a s.proxy ≡ err tt
        → Step s (record s { pc = update s.pc i (running b (k (err tt))) })
    -- `self.receiver.recv()`: a message, or an error if there is none and the thread has ended.
    received :
        (i : ℕ) (b : Body A) (k : Result ManagerReturnValue Unit → Body A) (r : ManagerReturnValue)
        (rest : List ManagerReturnValue)
        → s.pc i ≡ awaiting b k
        → s.proxy.replies ≡ r ∷ rest
        → Step s (record s {
          proxy = record (s.proxy) { replies = rest };
          pc = update s.pc i (running b (k (ok r)));
        })
    disconnected :
        (i : ℕ) (b : Body A) (k : Result ManagerReturnValue Unit → Body A)
        → s.pc i ≡ awaiting b k
        → s.proxy.replies ≡ []
        → s.proxy.thread ≡ none
        → Step s (record s { pc = update s.pc i (running b (k (err tt))) })
    -- The manager's thread takes a request, in any state of the system, and sends the reply.
    served :
        (os : B.Os) (a : ManagerArguments) (rest : List ManagerArguments) (m : Manager B)
        → s.proxy.requests ≡ a ∷ rest
        → s.proxy.thread ≡ some m
        → Step s (record s {
          proxy = record (s.proxy) {
            requests = rest;
            replies = s.proxy.replies ++ (turn B os a m).0 ∷ [];
            thread = (turn B os a m).1;
          };
        })
    -- The guard is dropped, and the entry point returns.
    released :
        (i : ℕ) (b : Body A) (a : A)
        → s.pc i ≡ running b (done a)
        → Step s (record s {
          lock = none;
          pc = update s.pc i outside;
          log = record { caller = i; body = b; result = a } ∷ s.log;
        })

  pub data Reach (m : Manager B) : System B A → Type 0 where
    started : Reach m (start m)
    later : {s t : System B A} → Reach m s → Step s t → Reach m t
