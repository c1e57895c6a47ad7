-- ===== src/Proxy/Threads/Returns.antt =====
-- Every call can return.
use osclientcerts.Prelude.{
  ℕ, ◌≡◌, refl, ◌∙◌, true, false, Option, none, some, List, [], ◌∷◌, Result, ok, err, ◌==◌, arith,
  Bool-cases, Result-cases, inl, inr,
}
use osclientcerts.Backend.{Backend}
use osclientcerts.Manager.State.{Manager}
use osclientcerts.Manager.Requests.{ManagerReturnValue}
use osclientcerts.Proxy.{turn, send}
use osclientcerts.Proxy.Threads.{
  Body, done, ask, Pc, outside, waiting, running, awaiting, Event, System, update, acquire, sent,
  not_sent, received, served, released, Reach, later,
}
use osclientcerts.Proxy.Threads.Invariant.{
  is_inside, Phase, free, inside, asked, answered, Phase-Awaiting, on_request, on_reply,
  update_self,
}
use osclientcerts.Proxy.Threads.Atomic.{Reach-Inv}
use osclientcerts.Proxy.Threads.GoesOn.{GoesOn, here, then_step, GoesOn-join, GoesOn-Reach, is_call}

-- The call that a thread is within.
unfoldable pub within : {A : Type 0} → Pc A → Option (Body A)
within outside = none
within (waiting b) = some b
within (running b c) = some b
within (awaiting b k) = some b

module _ (B : Backend) (A : Type 0) where
  -- Such steps end the call of a thread, which the log then has as the last one that returned.
  pub record Returns (s : System B A) (i : ℕ) (b : Body A) : Type 0 where
    pub end : System B A
    pub steps : GoesOn B A s end
    pub result : A
    pub earlier : List (Event A)
    pub logged : end.log ≡ record { caller = i; body = b; result = result } ∷ earlier
    pub back : end.pc i ≡ outside

  -- The same, with the lock free and the other threads where they were.
  record Finishes (s : System B A) (i : ℕ) (b : Body A) : Type 0 where
    returns : Returns s i b
    unlocked : returns.end.lock ≡ none
    others : (j : ℕ) → (i == j) ≡ false → returns.end.pc j ≡ s.pc j

  update_elsewhere :
      (pc : ℕ → Pc A) (i : ℕ) (p : Pc A) (j : ℕ) → (i == j) ≡ false → update pc i p j ≡ pc j
  unfolding update
  update_elsewhere pc i p j other = rw other refl

  -- Behind steps that move only that thread.
  Finishes-behind :
      {s t : System B A} (i : ℕ) (b : Body A)
      → GoesOn B A s t
      → ((j : ℕ) → (i == j) ≡ false → t.pc j ≡ s.pc j)
      → Finishes t i b
      → Finishes s i b
  Finishes-behind i b steps same f = record {
    returns = record {
      end = f.returns.end;
      steps = GoesOn-join B A steps f.returns.steps;
      result = f.returns.result;
      earlier = f.returns.earlier;
      logged = f.returns.logged;
      back = f.returns.back;
    };
    unlocked = f.unlocked;
    others = λ j other. f.others j other ∙ same j other;
  }

  module _ {m : Manager B} (os : B.Os) where
    -- A reply has come.
    received-Finishes :
        (s : System B A) (i : ℕ) (b : Body A) (k : Result ManagerReturnValue Unit → Body A)
        (r : ManagerReturnValue)
        → ((t : System B A) → Reach B A m t → t.pc i ≡ running b (k (ok r)) → Finishes t i b)
        → Reach B A m s
        → s.pc i ≡ awaiting b k
        → s.proxy.replies ≡ r ∷ []
        → Finishes s i b
    unfolding is_call
    received-Finishes s i b k r next reached at replies =
        let step = received i b k r [] at replies in
        Finishes-behind i b (then_step here step refl)
          (update_elsewhere s.pc i (running b (k (ok r))))
          (next _ (later reached step) (update_self B A s.pc i (running b (k (ok r)))))

    awaiting-Finishes :
        (s : System B A) (i : ℕ) (b : Body A) (k : Result ManagerReturnValue Unit → Body A)
        → ((answer : Result ManagerReturnValue Unit) (t : System B A)
            → Reach B A m t
            → t.pc i ≡ running b (k answer)
            → Finishes t i b)
        → Reach B A m s
        → s.pc i ≡ awaiting b k
        → Finishes s i b
    unfolding is_call
    awaiting-Finishes s i b k next reached at =
        let v = Reach-Inv B A reached in
        elim (Phase-Awaiting B A v.thread s i b k at v.phase) [
          | on_request a n e ↦
              let step = served os a [] n (rw e refl) (rw e refl) in
              Finishes-behind i b (then_step here step refl) (λ j other. refl)
                (received-Finishes _ i b k (turn B os a n).0 (next (ok (turn B os a n).0))
                  (later reached step) at (rw e refl))
          | on_reply r u locked only asks e ↦
              received-Finishes s i b k r (next (ok r)) reached at (rw e refl)
        ]

    running-Finishes :
        (c : Body A) (s : System B A) (i : ℕ) (b : Body A)
        → Reach B A m s
        → s.pc i ≡ running b c
        → Finishes s i b
    unfolding is_call
    running-Finishes (done a) s i b reached at = record {
      returns = record {
        end = _;
        steps = then_step here (released i b a at) refl;
        result = a;
        earlier = s.log;
        logged = refl;
        back = update_self B A s.pc i outside;
      };
      unlocked = refl;
      others = update_elsewhere s.pc i outside;
    }
    running-Finishes (ask a k) s i b reached at = elim (Result-cases (send B a s.proxy)) [
      | inl (_, e) ↦
          let step = not_sent os i b a k at e in
          Finishes-behind i b (then_step here step refl)
            (update_elsewhere s.pc i (running b (k (err tt))))
            (running-Finishes (k (err tt)) _ i b (later reached step)
              (update_self B A s.pc i (running b (k (err tt)))))
      | inr (q, e) ↦
          let step = sent i b a k q at e in
          Finishes-behind i b (then_step here step refl) (update_elsewhere s.pc i (awaiting b k)) (
            awaiting-Finishes _ i b k (λ answer t r h. running-Finishes (k answer) t i b r h)
              (later reached step) (update_self B A s.pc i (awaiting b k)))
    ]

    waiting-Finishes :
        (s : System B A) (i : ℕ) (p : Pc A) (b : Body A)
        → Reach B A m s
        → s.pc i ≡ p
        → s.lock ≡ none
        → within p ≡ some b
        → is_inside p ≡ false
        → Finishes s i b
    unfolding within is_inside is_call
    waiting-Finishes s i outside b reached at unlocked busy out = cc
    waiting-Finishes s i (waiting b') b reached at unlocked busy out =
        let at_b : s.pc i ≡ waiting b = cc in
        let step = acquire i b unlocked at_b in
        Finishes-behind i b (then_step here step refl) (update_elsewhere s.pc i (running b b))
          (running-Finishes b _ i b (later reached step) (update_self B A s.pc i (running b b)))
    waiting-Finishes s i (running b' c) b reached at unlocked busy out = cc
    waiting-Finishes s i (awaiting b' k) b reached at unlocked busy out = cc

    -- The thread that has the lock finishes, and then another one that waits.
    after-Finishes :
        (s : System B A) (i j : ℕ) (b c : Body A)
        → Reach B A m s
        → within (s.pc i) ≡ some b
        → ((l : ℕ) → is_inside (s.pc l) ≡ true → l ≡ j)
        → (j == i) ≡ false
        → Finishes s j c
        → Returns s i b
    after-Finishes s i j b c reached busy only other f =
        let there = f.others i other in
        let quiet : is_inside (s.pc i) ≡ false = elim (Bool-cases (is_inside (s.pc i))) [
          | inl held ↦ let same = only i held in absurd (ground arith)
          | inr out ↦ out
        ] in
        let g =
          waiting-Finishes f.returns.end i (s.pc i) b (GoesOn-Reach B A reached f.returns.steps)
            there f.unlocked busy quiet in
        record {
          end = g.returns.end;
          steps = GoesOn-join B A f.returns.steps g.returns.steps;
          result = g.returns.result;
          earlier = g.returns.earlier;
          logged = g.returns.logged;
          back = g.returns.back;
        }

    awaiting-Returns :
        (s : System B A) (i j : ℕ) (b c : Body A) (k : Result ManagerReturnValue Unit → Body A)
        → Reach B A m s
        → within (s.pc i) ≡ some b
        → ((l : ℕ) → is_inside (s.pc l) ≡ true → l ≡ j)
        → s.pc j ≡ awaiting c k
        → Returns s i b
    unfolding within
    awaiting-Returns s i j b c k reached busy only at = elim (Bool-cases (j == i)) [
      | inl same ↦
          let same' : j ≡ i = ground arith in
          let at_i : s.pc i ≡ awaiting b k = cc in
          (awaiting-Finishes s i b k (λ answer t r h. running-Finishes (k answer) t i b r h) reached
            at_i).returns
      | inr other ↦ after-Finishes s i j b c reached busy only other (
          awaiting-Finishes s j c k (λ answer t r h. running-Finishes (k answer) t j c r h) reached
            at)
    ]

    Phase-Returns :
        (t : Option (Manager B)) (s : System B A) (i : ℕ) (b : Body A)
        → Reach B A m s
        → within (s.pc i) ≡ some b
        → Phase B A t s
        → Returns s i b
    unfolding within
    Phase-Returns t s i b reached busy (free unlocked e none_inside) =
        (waiting-Finishes s i (s.pc i) b reached refl unlocked busy (none_inside i)).returns
    Phase-Returns t s i b reached busy (inside j c d u locked only at asks e) =
        elim (Bool-cases (j == i)) [
          | inl same ↦
              let same' : j ≡ i = ground arith in
              let at_i : s.pc i ≡ running b d = cc in
              (running-Finishes d s i b reached at_i).returns
          | inr other ↦
              after-Finishes s i j b c reached busy only other (running-Finishes d s j c reached at)
        ]
    Phase-Returns t s i b reached busy (asked j c a k n locked only at asks e) =
        awaiting-Returns s i j b c k reached busy only at
    Phase-Returns t s i b reached busy (answered j c k r u locked only at asks e) =
        awaiting-Returns s i j b c k reached busy only at

    -- However the steps were interleaved, every call that has begun can return: some steps, none of
    -- which begins a call, lead to where it is the last call that has returned, and its thread is
    -- outside.
    pub Reach-Returns :
        {s : System B A} (i : ℕ) (b : Body A)
        → Reach B A m s
        → within (s.pc i) ≡ some b
        → Returns s i b
    Reach-Returns {s} i b reached busy =
        let v = Reach-Inv B A reached in Phase-Returns v.thread s i b reached busy v.phase
