-- ===== src/Tests/OnWindows.antt =====
-- C_Initialize where OSCLIENTCERTS is "1".
use osclientcerts.Prelude.{◌≡◌, refl, true, none, some, [], ◌∷◌, ◌⊎◌, All}
use osclientcerts.Cryptoki.{ckr_ok}
use osclientcerts.Text.{Text}
use osclientcerts.Cleanup.Profiles.{Host, one}
use osclientcerts.Provider.Calls.{Call}
use osclientcerts.Provider.OnWindows.{
  Module, c_initialize_and_spawn, run_module, started, WasOne, IsNotOne, Runs, loaded, called,
  Runs-threads,
}
use osclientcerts.Tests.Base.{B, os}

abbrev host : Host
host = record {
  Os = Unit;
  PathBuf = Text;
  var = λ _ _. some one;
  read_to_string = λ _ _. none;
  exists = λ _ _. true;
  path_from = λ path. path;
  join = λ dir _. dir;
}

initialised : (m : Module B) × Runs B host m (tt ∷ [])
unfolding run_module c_initialize_and_spawn started
initialised = (_, called (Call.initialize os) tt ckr_ok _ loaded refl)

Runs-threads_example :
    (WasOne host (tt ∷ []) × (initialised.0.spawner.threads ≡ 1))
    ⊎ (All (IsNotOne host) (tt ∷ []) × (initialised.0.spawner.threads ≡ 0))
Runs-threads_example = Runs-threads B host initialised.1
