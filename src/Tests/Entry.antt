-- ===== src/Tests/Entry.antt =====
-- The entry points: the provider over the stub backend, behind C_Initialize; and a queue of two requests.
use osclientcerts.Prelude.{◌≡◌, refl, some, none, List, [], ◌∷◌}
use osclientcerts.Cryptoki.{ckr_ok}
use osclientcerts.Manager.State.{Manager}
use osclientcerts.Manager.Requests.{ManagerArguments, ManagerReturnValue}
use osclientcerts.Proxy.{serve, spawn}
use osclientcerts.Proxy.Replies.{AreRepliesTo, goes_on, all_go_on, serve-AreRepliesTo}
use osclientcerts.Manager.Scan.{new}
use osclientcerts.Provider.{c_initialize}
use osclientcerts.Provider.Calls.{Call, run, Reachable, start, step}
use osclientcerts.Provider.Live.{Lives}
use osclientcerts.Provider.Liveness.{run-Lives}
use osclientcerts.Provider.Ready.{ready}
use osclientcerts.Tests.Base.{B, os, fresh}

initialised : Reachable B (ready B (new B os))
unfolding run c_initialize spawn
initialised = step (Call.initialize os) ckr_ok (ready B (new B os)) start refl

run-Lives_example : Lives B (run B (Call.sign os os 1 (some (7 ∷ [])) 1 none) (ready B (new B os)))
run-Lives_example =
    run-Lives B (ready B (new B os)) (Call.sign os os 1 (some (7 ∷ [])) 1 none) initialised

abbrev queue : List ManagerArguments
queue = ManagerArguments.open_session 6 ∷ ManagerArguments.close_session 1 ∷ []

serve-AreRepliesTo_example :
    (replies : List ManagerReturnValue) × (after : Manager B) × (serve B os queue (some fresh)
      ≡ ([], replies, some after))
    × AreRepliesTo queue replies
unfolding all_go_on goes_on
serve-AreRepliesTo_example = serve-AreRepliesTo B os queue fresh refl
