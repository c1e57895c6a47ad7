-- ===== src/Tests/Threads.antt =====
-- Two threads that open a session each on the stub backend, at the same time.
use osclientcerts.Prelude.{ℕ, ◌≡◌, refl, true, Option, none, some, [], ◌∷◌, Result, ok, err}
use osclientcerts.Manager.Requests.{ManagerArguments, ManagerReturnValue, dispatch}
use osclientcerts.Manager.State.{Manager}
use osclientcerts.Manager.Scan.{get_session_info, open_session}
use osclientcerts.Proxy.{stop_after_send, turn, send, expected}
use osclientcerts.Tests.Base.{B, os, fresh, opened}
use osclientcerts.Proxy.Threads.{
  Body, done, ask_fn, awaiting, System, update, call, acquire, sent, received, served, released,
  Reach, started, later,
}
use osclientcerts.Proxy.Threads.Serial.{Serial, rest}
use osclientcerts.Proxy.Threads.Invariant.{is_inside}
use osclientcerts.Proxy.Threads.Atomic.{Reach-Serial}
use osclientcerts.Proxy.Threads.Returns.{within, Returns, Reach-Returns}

-- `manager.get_session_info(handle)`, and its result.
abbrev lookup_flags : ℕ → Body (Result ℕ Unit)
lookup_flags handle =
    ask_fn (err tt)
      (λ v. elim v [ ManagerReturnValue.get_session_info result ↦ some result | _ ↦ none ])
      (ManagerArguments.get_session_info handle) done

abbrev Flags : Type 0
Flags = Result ℕ Unit

abbrev after_receive : Result ManagerReturnValue Unit → Body Flags
after_receive answer = elim answer [
  | err _ ↦ done (err tt)
  | ok result ↦ done (
      expected (err tt) (elim result [ ManagerReturnValue.get_session_info r ↦ some r | _ ↦ none ]))
]

-- Both are called; the second one takes the lock and sends its request.
in_flight :
    (s : System B Flags) × Reach B Flags opened s
    × (s.pc 1 ≡ awaiting (lookup_flags 2) after_receive)
    × (is_inside (s.pc 1) ≡ true)
    × (within (s.pc 0) ≡ some (lookup_flags 1))
unfolding update send ask_fn is_inside within
in_flight = (
  _,
  later
      (later (later (later started (call 0 (lookup_flags 1) refl)) (call 1 (lookup_flags 2) refl))
        (acquire 1 (lookup_flags 2) refl refl))
      (sent 1 (lookup_flags 2) (ManagerArguments.get_session_info 2) after_receive _ refl refl),
  refl,
  refl,
  refl,
)

-- It has returned: there is no session 2.
returned :
    (s : System B Flags) × Reach B Flags opened s
    × (s.log ≡ record { caller = 1; body = lookup_flags 2; result = err tt } ∷ [])
unfolding in_flight update turn send ask_fn opened fresh stop_after_send dispatch get_session_info
    open_session
returned = (
  _,
  later
      (later
        (later in_flight.1 (served os (ManagerArguments.get_session_info 2) [] opened refl refl))
        (received 1 (lookup_flags 2) after_receive (ManagerReturnValue.get_session_info (err tt)) []
          refl refl))
      (released 1 (lookup_flags 2) (err tt) refl),
  refl,
)

Reach-Serial_example :
    (t : Option (Manager B)) × Serial B Flags (rest B (some opened)) (returned.0.log) (rest B t)
    × (returned.0.lock ≡ none → returned.0.proxy ≡ rest B t)
Reach-Serial_example = Reach-Serial B Flags returned.1

Reach-Returns_example : Returns B Flags in_flight.0 0 (lookup_flags 1)
Reach-Returns_example = Reach-Returns B Flags os 0 (lookup_flags 1) in_flight.1 in_flight.4
