-- ===== src/Proxy/Threads/Invariant.antt =====
-- What holds however the steps of the threads are interleaved.
use osclientcerts.Prelude.{
  ℕ, ◌≡◌, refl, sym, ◌∙◌, subst, Bool, true, false, Option, none, some, [], ◌∷◌, Result, ok, ◌==◌,
  arith, Bool-cases, inl, inr,
}
use osclientcerts.Backend.{Backend}
use osclientcerts.Manager.State.{Manager}
use osclientcerts.Manager.Requests.{ManagerArguments, ManagerReturnValue}
use osclientcerts.Proxy.Threads.{Body, ask, Pc, outside, waiting, running, awaiting, System, update}
use osclientcerts.Proxy.Threads.Serial.{Asks, not_yet, Serial, rest}

-- A thread has the lock.
unfoldable pub is_inside : {A : Type 0} → Pc A → Bool
is_inside outside = false
is_inside (waiting b) = false
is_inside (running b c) = true
is_inside (awaiting b k) = true

module _ (B : Backend) (A : Type 0) where
  -- No thread but the one is inside.
  abbrev pub OnlyInside : ℕ → (ℕ → Pc A) → Type 0
  OnlyInside i pc = (j : ℕ) → is_inside (pc j) ≡ true → j ≡ i

  -- Where the thread that has the lock stands, when the calls before it have left the manager's
  -- thread `t`: nothing was asked since the last reply, or a request, or its reply, is on its way.
  pub data Phase (t : Option (Manager B)) (s : System B A) : Type 0 where
    free : s.lock ≡ none → s.proxy ≡ rest B t → ((j : ℕ) → is_inside (s.pc j) ≡ false) → Phase t s
    inside :
        (i : ℕ) (b c : Body A) (u : Option (Manager B))
        → s.lock ≡ some i
        → OnlyInside i s.pc
        → s.pc i ≡ running b c
        → Asks B A (rest B t) b (rest B u) c
        → s.proxy ≡ rest B u
        → Phase t s
    asked :
        (i : ℕ) (b : Body A) (a : ManagerArguments) (k : Result ManagerReturnValue Unit → Body A)
        (m : Manager B)
        → s.lock ≡ some i
        → OnlyInside i s.pc
        → s.pc i ≡ awaiting b k
        → Asks B A (rest B t) b (rest B (some m)) (ask a k)
        → s.proxy ≡ record (rest B (some m)) { requests = a ∷ [] }
        → Phase t s
    answered :
        (i : ℕ) (b : Body A) (k : Result ManagerReturnValue Unit → Body A) (r : ManagerReturnValue)
        (u : Option (Manager B))
        → s.lock ≡ some i
        → OnlyInside i s.pc
        → s.pc i ≡ awaiting b k
        → Asks B A (rest B t) b (rest B u) (k (ok r))
        → s.proxy ≡ record (rest B u) { replies = r ∷ [] }
        → Phase t s

  pub record Inv (m : Manager B) (s : System B A) : Type 0 where
    pub thread : Option (Manager B)
    pub serial : Serial B A (rest B (some m)) s.log (rest B thread)
    pub phase : Phase thread s

  pub update_self : (pc : ℕ → Pc A) (i : ℕ) (p : Pc A) → update pc i p i ≡ p
  unfolding update
  update_self pc i p = ground arith

  pub OnlyInside-update :
      (pc : ℕ → Pc A) (i : ℕ) (p : Pc A) → OnlyInside i pc → OnlyInside i (update pc i p)
  unfolding update
  OnlyInside-update pc i p only j h = elim (Bool-cases (i == j)) [
    | inl same ↦ ground arith
    | inr other ↦ only j (ground arith)
  ]

  module _ (pc : ℕ → Pc A) (i : ℕ) (p : Pc A) (before : is_inside (pc i) ≡ false)
      (after : is_inside p ≡ false) where
    is_inside-update : (j : ℕ) → is_inside (update pc i p j) ≡ is_inside (pc j)
    unfolding update
    is_inside-update j = ground arith

    update_other : (j : ℕ) (x : Pc A) → pc j ≡ x → is_inside x ≡ true → update pc i p j ≡ x
    unfolding update
    update_other j x e h = ground arith

    OnlyInside-quiet : (j : ℕ) → OnlyInside j pc → OnlyInside j (update pc i p)
    OnlyInside-quiet j only l h = only l (sym (is_inside-update l) ∙ h)

  -- A step of a thread that neither has nor takes the lock.
  module _ (t : Option (Manager B)) (s : System B A) (i : ℕ) (p : Pc A)
      (before : is_inside (s.pc i) ≡ false) (after : is_inside p ≡ false) where
    pub Phase-quiet : Phase t s → Phase t (record s { pc = update s.pc i p })
    unfolding is_inside
    Phase-quiet (free unlocked e none_inside) =
        free unlocked e (λ j. is_inside-update s.pc i p before after j ∙ none_inside j)
    Phase-quiet (inside j b c u locked only at asks e) =
        inside j b c u locked (OnlyInside-quiet s.pc i p before after j only)
          (update_other s.pc i p before after j (running b c) at refl) asks e
    Phase-quiet (asked j b a k m locked only at asks e) =
        asked j b a k m locked (OnlyInside-quiet s.pc i p before after j only)
          (update_other s.pc i p before after j (awaiting b k) at refl) asks e
    Phase-quiet (answered j b k r u locked only at asks e) =
        answered j b k r u locked (OnlyInside-quiet s.pc i p before after j only)
          (update_other s.pc i p before after j (awaiting b k) at refl) asks e

  -- The lock is free, and a thread that waits for it takes it.
  OnlyInside-alone :
      (pc : ℕ → Pc A) (i : ℕ) (p : Pc A)
      → ((j : ℕ) → is_inside (pc j) ≡ false)
      → OnlyInside i (update pc i p)
  unfolding update
  OnlyInside-alone pc i p none_inside j h = ground (arith, none_inside j)

  pub Phase-acquire :
      (t : Option (Manager B)) (s : System B A) (i : ℕ) (b : Body A)
      → s.lock ≡ none
      → Phase t s
      → Phase t (record s { lock = some i; pc = update s.pc i (running b b) })
  Phase-acquire t s i b unlocked (free _ e none_inside) =
      inside i b b t refl (OnlyInside-alone s.pc i (running b b) none_inside)
        (update_self s.pc i (running b b)) not_yet e
  Phase-acquire t s i b unlocked (inside j _ _ _ locked _ _ _ _) = cc
  Phase-acquire t s i b unlocked (asked j _ _ _ _ locked _ _ _ _) = cc
  Phase-acquire t s i b unlocked (answered j _ _ _ _ locked _ _ _ _) = cc

  -- The thread that has the lock, and how far its call is.
  pub record Running (t : Option (Manager B)) (s : System B A) (i : ℕ) (b c : Body A) : Type 0 where
    pub thread : Option (Manager B)
    pub locked : s.lock ≡ some i
    pub only : OnlyInside i s.pc
    pub asks : Asks B A (rest B t) b (rest B thread) c
    pub proxy : s.proxy ≡ rest B thread

  pub Phase-Running :
      (t : Option (Manager B)) (s : System B A) (i : ℕ) (b c : Body A)
      → s.pc i ≡ running b c
      → Phase t s
      → Running t s i b c
  unfolding is_inside
  Phase-Running t s i b c at (free _ _ none_inside) = let h = none_inside i in absurd (ground arith)
  Phase-Running t s i b c at (inside j b' c' u locked only at' asks e) =
      let same = only i (rw at refl) in
      let e_b : b' ≡ b = cc in
      let e_c : c' ≡ c = cc in
      record {
        thread = u;
        locked = cc;
        only = λ l h. only l h ∙ sym same;
        asks =
            subst (λ x. Asks B A (rest B t) x (rest B u) c) e_b
              (subst (λ x. Asks B A (rest B t) b' (rest B u) x) e_c asks);
        proxy = e;
      }
  Phase-Running t s i b c at (asked j b' a k m locked only at' asks e) =
      let same = only i (rw at refl) in absurd (cc)
  Phase-Running t s i b c at (answered j b' k r u locked only at' asks e) =
      let same = only i (rw at refl) in absurd (cc)

  -- The thread that has the lock and waits for a reply.
  pub data Awaiting (t : Option (Manager B)) (s : System B A) (i : ℕ) (b : Body A)
      (k : Result ManagerReturnValue Unit → Body A) : Type 0 where
    on_request :
        (a : ManagerArguments) (m : Manager B)
        → s.proxy ≡ record (rest B (some m)) { requests = a ∷ [] }
        → Awaiting t s i b k
    on_reply :
        (r : ManagerReturnValue) (u : Option (Manager B))
        → s.lock ≡ some i
        → OnlyInside i s.pc
        → Asks B A (rest B t) b (rest B u) (k (ok r))
        → s.proxy ≡ record (rest B u) { replies = r ∷ [] }
        → Awaiting t s i b k

  pub Phase-Awaiting :
      (t : Option (Manager B)) (s : System B A) (i : ℕ) (b : Body A)
      (k : Result ManagerReturnValue Unit → Body A)
      → s.pc i ≡ awaiting b k
      → Phase t s
      → Awaiting t s i b k
  unfolding is_inside
  Phase-Awaiting t s i b k at (free _ _ none_inside) =
      let h = none_inside i in absurd (ground arith)
  Phase-Awaiting t s i b k at (inside j b' c' u locked only at' asks e) =
      let same = only i (rw at refl) in absurd (cc)
  Phase-Awaiting t s i b k at (asked j b' a k' m locked only at' asks e) = on_request a m e
  Phase-Awaiting t s i b k at (answered j b' k' r u locked only at' asks e) =
      let same = only i (rw at refl) in
      let e_b : b' ≡ b = cc in
      let e_k : k' ≡ k = cc in
      on_reply r u (cc) (λ l h. only l h ∙ sym same)
        (subst (λ x. Asks B A (rest B t) x (rest B u) (k (ok r))) e_b
          (subst (λ x. Asks B A (rest B t) b' (rest B u) (x (ok r))) e_k asks))
        e
