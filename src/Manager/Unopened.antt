-- ===== src/Manager/Unopened.antt =====
-- The methods that start an operation do not look whether the session is open.
use osclientcerts.Prelude.{ℕ, ◌≡◌, [], Option, none, some, ok, err, arith}
use osclientcerts.Cryptoki.{PssParams}
use osclientcerts.BTreeMap.{get}
use osclientcerts.BTreeMap.Laws.{get-insert_self}
use osclientcerts.Backend.{Backend, key}
use osclientcerts.Manager.State.{Manager, as_key}
use osclientcerts.Manager.Scan.{close_session}
use osclientcerts.Manager.Sign.{accepts_sign, start_sign}

module _ (B : Backend) where
  -- On a session that is not open a sign operation can be started with any key; closing that session
  -- is then an error, which leaves the operation active.
  pub start_sign-unopened :
      (m : Manager B) (s handle : ℕ) (k : B.Key) (params : Option PssParams)
      → get m.sessions s ≡ none
      → get m.signs s ≡ none
      → get m.objects handle ≡ some (key k)
      → ((start_sign B s handle params m).0 ≡ ok tt)
        × (close_session B s (start_sign B s handle params m).1
            ≡ (err tt, (start_sign B s handle params m).1))
        × (get (start_sign B s handle params m).1.signs s
            ≡ some (record { handle = handle; params = params; buffer = [] }))
  unfolding start_sign accepts_sign as_key close_session
  start_sign-unopened m s handle k params closed idle found =
      ground (
        arith,
        get-insert_self m.signs s (record { handle = handle; params = params; buffer = [] }),
      )
