-- ===== src/Provider/OnWindows.antt =====
-- src/lib.rs on Windows, where C_Initialize starts the clean-up of cert9.db.
use osclientcerts.Prelude.{
  ◌≡◌, ◌≢◌, refl, ap, ◌∙◌, ◌⊎◌, true, false, none, some, List, [], ◌∷◌, ◌++◌, All, Bool-cases,
  Option-cases, inl, inr, arith, if◌then◌else◌, bytes_eq, bytes_eq_sound, bytes_eq_refl,
}
use osclientcerts.Cryptoki.{Rv, ckr_ok, ckr_device_error, ckr_cryptoki_already_initialized}
use osclientcerts.Backend.{Backend}
use osclientcerts.Proxy.{spawn}
use osclientcerts.Provider.{Outcome, returns, waits, faults, Provider}
use osclientcerts.Provider.Calls.{Call, run}
use osclientcerts.Provider.Lifecycle.{uninitialised}
use osclientcerts.Text.{Text}
use osclientcerts.Cleanup.Profiles.{Host, one}
use osclientcerts.Cleanup.Spawn.{
  Spawner, cleanup_enable_env_var, not_spawned, call_once, gate_ok, spawn_background_thread, any_ok,
}

-- The provider with the clean-up's `SPAWN_ONCE` and threads.
pub record Module (B : Backend) : Type 0 where
  pub provider : Provider B
  pub spawner : Spawner

-- "OSCLIENTCERTS"
abbrev pub enable_variable : Text
enable_variable = 79 ∷ 83 ∷ 67 ∷ 76 ∷ 73 ∷ 69 ∷ 78 ∷ 84 ∷ 67 ∷ 69 ∷ 82 ∷ 84 ∷ 83 ∷ []

module _ (h : Host) where
  -- The variable is set to "1", or it is not.
  abbrev pub IsOne : h.Os → Type 0
  IsOne host = h.var host enable_variable ≡ some (49 ∷ [])

  abbrev pub IsNotOne : h.Os → Type 0
  IsNotOne host = h.var host enable_variable ≢ some (49 ∷ [])

  -- It is in one of these states of the system.
  abbrev pub WasOne : List h.Os → Type 0
  WasOne states =
      (before : List h.Os) × (host : h.Os) × (after : List h.Os) × (states ≡ before ++ host ∷ after)
      × IsOne host

  gate_ok-cases :
      (host : h.Os)
      → ((gate_ok h host ≡ true) × IsOne host) ⊎ ((gate_ok h host ≡ false) × IsNotOne host)
  unfolding gate_ok
  gate_ok-cases host = elim (Option-cases (h.var host cleanup_enable_env_var)) [
    | inl unset ↦ inr (rw (unset, gate_ok) refl, λ is_one. cc)
    | inr (value, set) ↦ elim (Bool-cases (bytes_eq value one)) [
      | inl same ↦ inl (rw (set, same, gate_ok) refl, set ∙ ap some (bytes_eq_sound value one same))
      | inr other ↦
          inr (rw (set, other, gate_ok) refl, λ is_one. let itself = bytes_eq_refl one in cc)
    ]
  ]

module _ (B : Backend) (h : Host) where
  unfoldable pub c_initialize_and_spawn : B.Os → h.Os → Module B → Outcome (Rv × Module B)
  c_initialize_and_spawn os host m =
      if m.provider.poisoned then returns (ckr_device_error, m) else elim m.provider.slot [
        | some _ ↦ returns (ckr_cryptoki_already_initialized, m)
        | none ↦ returns (
          ckr_ok,
          record m {
            provider = record (m.provider) { slot = some (spawn B os) };
            spawner = spawn_background_thread h host m.spawner;
          },
        )
      ]

  -- The other entry points have nothing to do with the clean-up.
  unfoldable pub with_spawner : Spawner → Outcome (Rv × Provider B) → Outcome (Rv × Module B)
  with_spawner s (returns (rv, p)) = returns (rv, record { provider = p; spawner = s })
  with_spawner s waits = waits
  with_spawner s faults = faults

  unfoldable pub run_module : Call B → h.Os → Module B → Outcome (Rv × Module B)
  run_module (Call.initialize os) host m = c_initialize_and_spawn os host m
  run_module c host m = with_spawner m.spawner (run B c m.provider)

  -- A successful C_Initialize, in that state of the system, behind earlier ones.
  unfoldable pub started : Call B → Rv → h.Os → List h.Os → List h.Os
  started (Call.initialize _) ckr_ok host earlier = host ∷ earlier
  started c rv host earlier = earlier

  -- The modules that calls lead to, with the states of the system in which C_Initialize was
  -- successful, the last one first.
  pub data Runs : Module B → List h.Os → Type 0 where
    loaded : Runs (record { provider = uninitialised B; spawner = not_spawned }) []
    called :
        {m : Module B} {states : List h.Os} (c : Call B) (host : h.Os) (rv : Rv) (n : Module B)
        → Runs m states
        → run_module c host m ≡ returns (rv, n)
        → Runs n (started c rv host states)

  -- The spawner behind initialisations in these states.
  abbrev pub spawner_after : List h.Os → Spawner
  spawner_after states = record {
    spawn_once = any_ok h states;
    threads = if any_ok h states then 1 else 0;
  }

  spawn-spawner_after :
      (host : h.Os) (states : List h.Os)
      → spawn_background_thread h host (spawner_after states) ≡ spawner_after (host ∷ states)
  unfolding spawn_background_thread call_once any_ok
  spawn-spawner_after host states = elim (Bool-cases (gate_ok h host)) [
    | inl set ↦ rw set (ground arith)
    | inr unset ↦ rw unset refl
  ]

  initialize-spawner :
      (os : B.Os) (host : h.Os) (m n : Module B) (rv : Rv) (states : List h.Os)
      → m.spawner ≡ spawner_after states
      → c_initialize_and_spawn os host m ≡ returns (rv, n)
      → n.spawner ≡ spawner_after (started (Call.initialize os) rv host states)
  unfolding c_initialize_and_spawn started
  initialize-spawner os host m n rv states same e =
      let step = spawn-spawner_after host states in ground arith

  with_spawner-spawner :
      (s : Spawner) (o : Outcome (Rv × Provider B)) (rv : Rv) (n : Module B)
      → with_spawner s o ≡ returns (rv, n)
      → n.spawner ≡ s
  unfolding with_spawner
  with_spawner-spawner s (returns (rv', p)) rv n e = ground arith
  with_spawner-spawner s waits rv n e = cc
  with_spawner-spawner s faults rv n e = cc

  call-spawner :
      (c : Call B) (host : h.Os) (m n : Module B) (rv : Rv) (states : List h.Os)
      → m.spawner ≡ spawner_after states
      → run_module c host m ≡ returns (rv, n)
      → n.spawner ≡ spawner_after (started c rv host states)
  unfolding run_module started
  call-spawner (Call.initialize os) host m n rv states same e =
      initialize-spawner os host m n rv states same e
  call-spawner c host m n rv states same e =
      with_spawner-spawner m.spawner (run B c m.provider) rv n e ∙ same

  Runs-spawner :
      {m : Module B} {states : List h.Os} → Runs m states → m.spawner ≡ spawner_after states
  unfolding any_ok
  Runs-spawner loaded = refl
  Runs-spawner (called {m} {states} c host rv n r e) =
      call-spawner c host m n rv states (Runs-spawner r) e

  any_ok-cases :
      (states : List h.Os)
      → ((any_ok h states ≡ true) × WasOne h states)
        ⊎ ((any_ok h states ≡ false) × All (IsNotOne h) states)
  unfolding any_ok
  any_ok-cases [] = inr (refl, tt)
  any_ok-cases (host ∷ states) = elim (gate_ok-cases h host) [
    | inl (set, is_one) ↦ inl (ground arith, ([], host, states, refl, is_one))
    | inr (unset, not_one) ↦ elim (any_ok-cases states) [
      | inl (later, (before, at, after, e, is_one)) ↦
          inl (ground arith, (host ∷ before, at, after, ap (λ l. host ∷ l) e, is_one))
      | inr (never, none_one) ↦ inr (ground arith, (not_one, none_one))
    ]
  ]

  -- Whatever calls of entry points were made: either the variable OSCLIENTCERTS was "1" at some
  -- successful C_Initialize, and one thread has been started for the clean-up, or at each of them it
  -- was not set or had another value, and none has.
  pub Runs-threads :
      {m : Module B} {states : List h.Os}
      → Runs m states
      → (WasOne h states × (m.spawner.threads ≡ 1))
        ⊎ (All (IsNotOne h) states × (m.spawner.threads ≡ 0))
  Runs-threads {m} {states} r =
      let same = Runs-spawner r in
      elim (any_ok-cases states) [
        | inl (some_ok, was_one) ↦
            inl (was_one, ap (λ (s : Spawner). s.threads) same ∙ rw some_ok refl)
        | inr (none_ok, never) ↦ inr (never, ap (λ (s : Spawner). s.threads) same ∙ rw none_ok refl)
      ]
