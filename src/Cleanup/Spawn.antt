-- ===== src/Cleanup/Spawn.antt =====
-- src/cert9_cleanup.rs: `spawn_background_thread` and the loop of its thread. Provider.OnWindows
-- has its call in `C_Initialize`.
use osclientcerts.Prelude.{
  ℕ, suc, Bool, true, false, not, ◌||◌, none, some, List, [], ◌∷◌, bytes_eq, if◌then◌else◌,
}
use osclientcerts.ByteOrder.{ByteOrder}
use osclientcerts.Cryptoki.{Cryptoki}
use osclientcerts.Windows.Api.{WindowsApi}
use osclientcerts.Text.{Text}
use osclientcerts.Cleanup.Profiles.{Host, one}
use osclientcerts.Cleanup.Pass.{Sqlite, run_pass}

-- "OSCLIENTCERTS"
abbrev pub cleanup_enable_env_var : Text
cleanup_enable_env_var =
    b'O' ∷ b'S' ∷ b'C' ∷ b'L' ∷ b'I' ∷ b'E' ∷ b'N' ∷ b'T' ∷ b'C' ∷ b'E' ∷ b'R' ∷ b'T' ∷ b'S' ∷ []

-- `SPAWN_ONCE`, and how many threads were started.
pub record Spawner : Type 0 where
  pub spawn_once : Bool
  pub threads : ℕ

abbrev pub not_spawned : Spawner
not_spawned = record { spawn_once = false; threads = 0 }

-- `Once::call_once` around the start of a thread.
unfoldable pub call_once : Spawner → Spawner
call_once s = if s.spawn_once then s else record { spawn_once = true; threads = suc s.threads }

module _ (h : Host) where
  unfoldable pub gate_ok : h.Os → Bool
  gate_ok os = elim (h.var os cleanup_enable_env_var) [
    | none ↦ false
    | some value ↦ bytes_eq value one
  ]

  unfoldable pub spawn_background_thread : h.Os → Spawner → Spawner
  spawn_background_thread os s = if not (gate_ok os) then s else call_once s

  -- In one of some states of the system.
  unfoldable pub any_ok : List h.Os → Bool
  any_ok [] = false
  any_ok (os ∷ later) = gate_ok os || any_ok later

  -- The thread's loop, for as many rounds as it has had: a pass, in the states of the two systems at
  -- that time. Its sleep between two passes is left out.
  unfoldable pub passes :
      (q : Sqlite h) (k : Cryptoki) (o : ByteOrder) (w : WindowsApi)
      → List (h.Os × w.Os)
      → q.Db
      → q.Db
  passes q k o w [] db = db
  passes q k o w ((os, windows) ∷ later) db =
      passes q k o w later (run_pass h q k o w os windows db)
