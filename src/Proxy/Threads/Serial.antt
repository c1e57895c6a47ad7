-- ===== src/Proxy/Threads/Serial.antt =====
-- The calls of several threads, one after the other, by the proxy's own functions.
use osclientcerts.Prelude.{
  ◌≡◌, refl, true, subst, ap, Option, none, some, List, [], ◌∷◌, Result, ok, err,
}
use osclientcerts.Backend.{Backend}
use osclientcerts.Manager.State.{Manager}
use osclientcerts.Manager.Requests.{ManagerArguments, ManagerReturnValue}
use osclientcerts.Proxy.{ManagerProxy, turn, serve, send, recv, proxy_call, proxy_fn, expected}
use osclientcerts.Proxy.Threads.{Body, done, ask, ask_fn, Event}

module _ (B : Backend) (A : Type 0) where
  -- A body, from a proxy on, has asked `proxy_call` so far that a proxy and a body are left.
  pub data Asks (p : ManagerProxy B) (b : Body A) : ManagerProxy B → Body A → Type 0 where
    not_yet : Asks p b p b
    then_ask :
        {q : ManagerProxy B} (a : ManagerArguments) (k : Result ManagerReturnValue Unit → Body A)
        (os : B.Os) (answer : Result ManagerReturnValue Unit) (r : ManagerProxy B)
        → Asks p b q (ask a k)
        → proxy_call B os a q ≡ some (answer, r)
        → Asks p b r (k answer)

  -- The calls of a log, one after the other, lead from a proxy to another and return what it says.
  pub data Serial (p : ManagerProxy B) : List (Event A) → ManagerProxy B → Type 0 where
    nothing : Serial p [] p
    and_then :
        {log : List (Event A)} {q : ManagerProxy B} (e : Event A) (r : ManagerProxy B)
        → Serial p log q
        → Asks q e.body r (done e.result)
        → Serial p (e ∷ log) r

-- A proxy with nothing under way.
abbrev pub rest : (B : Backend) → Option (Manager B) → ManagerProxy B
rest B thread = record { requests = []; replies = []; thread = thread; thread_handle = true }

module _ (B : Backend) where
  -- A reply in front of those to no request.
  one_reply :
      (os : B.Os) (r : ManagerReturnValue) (t : Option (Manager B))
      → ◌≡◌ {A = List ManagerArguments × List ManagerReturnValue × Option (Manager B)}
          (let (left, replies, last) = serve B os [] t in (left, r ∷ replies, last))
          ([], r ∷ [], t)
  unfolding serve
  one_reply os r none = refl
  one_reply os r (some m) = refl

  serve-one :
      (os : B.Os) (a : ManagerArguments) (m : Manager B)
      → serve B os (a ∷ []) (some m) ≡ ([], (turn B os a m).0 ∷ [], (turn B os a m).1)
  unfolding serve
  serve-one os a m = one_reply os (turn B os a m).0 (turn B os a m).1

  -- What `recv` makes of what was served, with an empty channel before it.
  after :
      List ManagerArguments × List ManagerReturnValue × Option (Manager B)
      → Option (Result ManagerReturnValue Unit × ManagerProxy B)
  after (left, replies, last) =
      let q = record (rest B last) { requests = left } in
      elim replies [
        | [] ↦ elim last [ none ↦ some (err tt, q) | some _ ↦ none ]
        | result ∷ more ↦ some (ok result, record q { replies = more })
      ]

  pub proxy_call-turn :
      (os : B.Os) (a : ManagerArguments) (m : Manager B)
      → proxy_call B os a (rest B (some m)) ≡ some (ok (turn B os a m).0, rest B (turn B os a m).1)
  unfolding proxy_call send recv after
  proxy_call-turn os a m = ap after (serve-one os a m)

  pub proxy_call-ended :
      (os : B.Os) (a : ManagerArguments)
      → proxy_call B os a (rest B none) ≡ some (err tt, rest B none)
  unfolding proxy_call send
  proxy_call-ended os a = refl

module _ (B : Backend) (A C : Type 0) (failure : C) (return_type : ManagerReturnValue → Option C)
    (next : C → Body A) (p : ManagerProxy B) (b : Body A) where
  ask_fn-answered :
      (os : B.Os) (a : ManagerArguments) (q r : ManagerProxy B) (c : C)
      (answered : Option (Result ManagerReturnValue Unit × ManagerProxy B))
      → Asks B A p b q (ask_fn failure return_type a next)
      → proxy_call B os a q ≡ answered
      → (elim answered as (λ _. Option (C × ManagerProxy B)) [
        | none ↦ none
        | some (err _, t) ↦ some (failure, t)
        | some (ok result, t) ↦ some (expected failure (return_type result), t)
      ])
        ≡ some (c, r)
      → Asks B A p b r (next c)
  unfolding ask_fn
  ask_fn-answered os a q r c none asks e h = cc
  ask_fn-answered os a q r c (some (err u, t)) asks e h =
      let same : ◌≡◌ {A = C × ManagerProxy B} (failure, t) (c, r) = cc in
      subst (λ x. Asks B A p b x.1 (next x.0)) same (then_ask a _ os (err u) t asks e)
  ask_fn-answered os a q r c (some (ok result, t)) asks e h =
      let same : ◌≡◌ {A = C × ManagerProxy B} (expected failure (return_type result), t) (c, r) =
        cc in
      subst (λ x. Asks B A p b x.1 (next x.0)) same (then_ask a _ os (ok result) t asks e)

  -- A body that asks for a function of the proxy goes on with what that function returns.
  pub ask_fn-next :
      (os : B.Os) (a : ManagerArguments) (q r : ManagerProxy B) (c : C)
      → Asks B A p b q (ask_fn failure return_type a next)
      → proxy_fn B failure return_type os a q ≡ some (c, r)
      → Asks B A p b r (next c)
  unfolding proxy_fn
  ask_fn-next os a q r c asks h = ask_fn-answered os a q r c (proxy_call B os a q) asks refl h
