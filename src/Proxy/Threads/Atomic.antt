-- ===== src/Proxy/Threads/Atomic.antt =====
-- The calls of threads that run at the same time are those of one thread after the other.
use osclientcerts.Prelude.{
  ℕ, ◌≡◌, refl, sym, ◌∙◌, subst, false, Option, none, some, List, [], ◌∷◌, ◌++◌, Result, ok, err,
  arith, Bool-cases, inl, inr, ap,
}
use osclientcerts.Backend.{Backend}
use osclientcerts.Manager.State.{Manager}
use osclientcerts.Manager.Requests.{ManagerArguments, ManagerReturnValue}
use osclientcerts.Proxy.{ManagerProxy, turn, send}
use osclientcerts.Proxy.Threads.{
  Body, done, ask, Pc, outside, waiting, running, awaiting, System, update, Step, call, acquire,
  sent, not_sent, received, disconnected, served, released, Reach, started, later,
}
use osclientcerts.Proxy.Threads.Serial.{
  Asks, then_ask, Serial, nothing, and_then, rest, proxy_call-turn, proxy_call-ended,
}
use osclientcerts.Proxy.Threads.Invariant.{
  is_inside, OnlyInside, Phase, free, inside, asked, answered, Inv, Phase-quiet, Phase-acquire,
  update_self, OnlyInside-update, Running, Phase-Running, Awaiting, on_request, on_reply,
  Phase-Awaiting,
}

module _ (B : Backend) (A : Type 0) where
  -- `send` to a thread that runs, and to one that has ended.
  send-some :
      (a : ManagerArguments) (m : Manager B)
      → send B a (rest B (some m)) ≡ ok (record (rest B (some m)) { requests = a ∷ [] })
  unfolding send
  send-some a m = refl

  send-none : (a : ManagerArguments) → send B a (rest B none) ≡ err tt
  unfolding send
  send-none a = refl

  module _ (t : Option (Manager B)) (s : System B A) (i : ℕ) (b : Body A) where
    Phase-sent :
        (a : ManagerArguments) (k : Result ManagerReturnValue Unit → Body A) (q : ManagerProxy B)
        (u : Option (Manager B))
        → Running B A t s i b (ask a k)
        → send B a (rest B u) ≡ ok q
        → Asks B A (rest B t) b (rest B u) (ask a k)
        → Phase B A t (record s { proxy = q; pc = update s.pc i (awaiting b k) })
    Phase-sent a k q none r e asks = let no = send-none a in absurd (cc)
    Phase-sent a k q (some m) r e asks =
        asked i b a k m r.locked (OnlyInside-update B A s.pc i (awaiting b k) r.only)
          (update_self B A s.pc i (awaiting b k)) asks (let yes = send-some a m in cc)

    Phase-not_sent :
        (a : ManagerArguments) (k : Result ManagerReturnValue Unit → Body A)
        (u : Option (Manager B))
        → Running B A t s i b (ask a k)
        → send B a (rest B u) ≡ err tt
        → Asks B A (rest B t) b (rest B u) (ask a k)
        → s.proxy ≡ rest B u
        → (os : B.Os) → Phase B A t (record s { pc = update s.pc i (running b (k (err tt))) })
    Phase-not_sent a k (some m) r e asks is_rest os = let yes = send-some a m in absurd (cc)
    Phase-not_sent a k none r e asks is_rest os =
        inside i b (k (err tt)) none r.locked
          (OnlyInside-update B A s.pc i (running b (k (err tt))) r.only)
          (update_self B A s.pc i (running b (k (err tt))))
          (then_ask a k os (err tt) (rest B none) asks (proxy_call-ended B os a)) is_rest

    Phase-received :
        (k : Result ManagerReturnValue Unit → Body A) (r : ManagerReturnValue)
        (more : List ManagerReturnValue)
        → Awaiting B A t s i b k
        → s.proxy.replies ≡ r ∷ more
        → Phase B A t (record s {
          proxy = record (s.proxy) { replies = more };
          pc = update s.pc i (running b (k (ok r)));
        })
    Phase-received k r more (on_request a m e) replies =
        let none_yet = ap (λ (p : ManagerProxy B). p.replies) e in absurd (cc)
    Phase-received k r more (on_reply r' u locked only asks e) replies =
        let one = sym replies ∙ ap (λ (p : ManagerProxy B). p.replies) e in
        let e_r : r' ≡ r = cc in
        let no_more : more ≡ [] = cc in
        inside i b (k (ok r)) u locked (OnlyInside-update B A s.pc i (running b (k (ok r))) only)
          (update_self B A s.pc i (running b (k (ok r))))
          (subst (λ x. Asks B A (rest B t) b (rest B u) (k (ok x))) e_r asks)
          (ap (λ (p : ManagerProxy B). record p { replies = more }) e
            ∙ ap (λ (l : List ManagerReturnValue). record (rest B u) { replies = l }) no_more)

    Awaiting-connected :
        (k : Result ManagerReturnValue Unit → Body A)
        → Awaiting B A t s i b k
        → s.proxy.replies ≡ []
        → s.proxy.thread ≡ none
        → ⊥
    Awaiting-connected k (on_request a m e) no_replies ended =
        let runs = ap (λ (p : ManagerProxy B). p.thread) e in cc
    Awaiting-connected k (on_reply r' u locked only asks e) no_replies ended =
        let one = ap (λ (p : ManagerProxy B). p.replies) e in cc

  module _ (os : B.Os) (t : Option (Manager B)) (s : System B A) (a : ManagerArguments)
      (more : List ManagerArguments) (m : Manager B) (requests : s.proxy.requests ≡ a ∷ more)
      (thread : s.proxy.thread ≡ some m) where
    no_request : (p : ManagerProxy B) → p.requests ≡ [] → s.proxy ≡ p → ⊥
    no_request p empty e = let same = ap (λ (x : ManagerProxy B). x.requests) e in cc

    Phase-served :
        Phase B A t s
        → Phase B A t (record s {
          proxy = record (s.proxy) {
            requests = more;
            replies = s.proxy.replies ++ (turn B os a m).0 ∷ [];
            thread = (turn B os a m).1;
          };
        })
    Phase-served (free unlocked e none_inside) = absurd (no_request (rest B t) refl e)
    Phase-served (inside i b c u locked only at asks e) = absurd (no_request (rest B u) refl e)
    Phase-served (answered i b k r u locked only at asks e) =
        absurd (no_request (record (rest B u) { replies = r ∷ [] }) refl e)
    Phase-served (asked i b a' k m' locked only at asks e) =
        let one = sym requests ∙ ap (λ (x : ManagerProxy B). x.requests) e in
        let running = sym thread ∙ ap (λ (x : ManagerProxy B). x.thread) e in
        let e_a : a' ≡ a = cc in
        let e_m : m' ≡ m = cc in
        let e_more : more ≡ [] = cc in
        answered i b k (turn B os a m).0 (turn B os a m).1 locked only at
          (then_ask a k os (ok (turn B os a m).0) (rest B (turn B os a m).1)
            (subst (λ x. Asks B A (rest B t) b (rest B (some m)) (ask x k)) e_a
              (subst (λ x. Asks B A (rest B t) b (rest B (some x)) (ask a' k)) e_m asks))
            (proxy_call-turn B os a m))
          (rw (e, e_more) refl)

  OnlyInside-release :
      (pc : ℕ → Pc A) (i : ℕ)
      → OnlyInside B A i pc
      → (j : ℕ) → is_inside (update pc i outside j) ≡ false
  unfolding update is_inside
  OnlyInside-release pc i only j = elim (Bool-cases (is_inside (pc j))) [
    | inl h ↦ let same = only j h in ground arith
    | inr h ↦ ground arith
  ]

  -- A step that no call ends.
  keep :
      {m : Manager B} {s t : System B A} (v : Inv B A m s)
      → s.log ≡ t.log
      → Phase B A v.thread t
      → Inv B A m t
  keep {m} {s} {t} v e phase = record {
    thread = v.thread;
    serial = subst (λ l. Serial B A (rest B (some m)) l (rest B v.thread)) e v.serial;
    phase = phase;
  }

  Step-Inv : {m : Manager B} {s t : System B A} → Step B A s t → Inv B A m s → Inv B A m t
  unfolding is_inside
  Step-Inv {m} {s} (call i b at) v =
      keep v refl (Phase-quiet B A v.thread s i (waiting b) (rw at refl) refl v.phase)
  Step-Inv {m} {s} (acquire i b unlocked at) v =
      keep v refl (Phase-acquire B A v.thread s i b unlocked v.phase)
  Step-Inv {m} {s} (sent i b a k q at e) v =
      let r = Phase-Running B A v.thread s i b (ask a k) at v.phase in
      keep v refl (
        Phase-sent v.thread s i b a k q r.thread r (subst (λ p. send B a p ≡ ok q) r.proxy e)
          r.asks)
  Step-Inv {m} {s} (not_sent os i b a k at e) v =
      let r = Phase-Running B A v.thread s i b (ask a k) at v.phase in
      keep v refl (
        Phase-not_sent v.thread s i b a k r.thread r (subst (λ p. send B a p ≡ err tt) r.proxy e)
          r.asks r.proxy os)
  Step-Inv {m} {s} (received i b k r more at e) v =
      keep v refl
        (Phase-received v.thread s i b k r more (Phase-Awaiting B A v.thread s i b k at v.phase) e)
  Step-Inv {m} {s} (disconnected i b k at no_replies ended) v = absurd (
      Awaiting-connected v.thread s i b k (Phase-Awaiting B A v.thread s i b k at v.phase)
        no_replies ended)
  Step-Inv {m} {s} (served os a more n requests thread) v =
      keep v refl (Phase-served os v.thread s a more n requests thread v.phase)
  Step-Inv {m} {s} (released i b a at) v =
      let r = Phase-Running B A v.thread s i b (done a) at v.phase in
      record {
        thread = r.thread;
        serial =
            and_then (record { caller = i; body = b; result = a }) (rest B r.thread) v.serial
              r.asks;
        phase = free refl r.proxy (OnlyInside-release s.pc i r.only);
      }

  pub Reach-Inv : {m : Manager B} {s : System B A} → Reach B A m s → Inv B A m s
  unfolding is_inside
  Reach-Inv {m} started = record {
    thread = some m;
    serial = nothing;
    phase = free refl refl (λ j. refl);
  }
  Reach-Inv (later r step) = Step-Inv step (Reach-Inv r)

  unlocked-proxy :
      (t : Option (Manager B)) (s : System B A) → s.lock ≡ none → Phase B A t s → s.proxy ≡ rest B t
  unlocked-proxy t s h (free _ e _) = e
  unlocked-proxy t s h (inside _ _ _ _ locked _ _ _ _) = absurd (cc)
  unlocked-proxy t s h (asked _ _ _ _ _ locked _ _ _ _) = absurd (cc)
  unlocked-proxy t s h (answered _ _ _ _ _ locked _ _ _ _) = absurd (cc)

  -- However the steps of any number of threads and of the manager's thread are interleaved, the calls
  -- that have returned are, in the order in which they gave the lock back, a run of one thread that
  -- makes them one after the other by `proxy_call`, with the same results; and while no thread has
  -- the lock, the proxy is what that run leaves.
  pub Reach-Serial :
      {m : Manager B} {s : System B A}
      → Reach B A m s
      → (t : Option (Manager B)) × Serial B A (rest B (some m)) s.log (rest B t)
        × (s.lock ≡ none → s.proxy ≡ rest B t)
  Reach-Serial {m} {s} r =
      let v = Reach-Inv r in (v.thread, v.serial, λ h. unlocked-proxy v.thread s h v.phase)
