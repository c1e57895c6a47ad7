-- ===== src/Manager/Closing.antt =====
-- Opening gives out a session that is not open, and closing ends all that a session had active.
use osclientcerts.Prelude.{
  ℕ, ◌≡◌, ap, none, some, ok, err, ◌==◌, if◌then◌else◌, arith, inl, inr, Option-cases,
}
use osclientcerts.BTreeMap.{get}
use osclientcerts.BTreeMap.Laws.{get-insert, get-remove_self}
use osclientcerts.Backend.{Backend}
use osclientcerts.Manager.State.{Manager}
use osclientcerts.Manager.Scan.{three_seconds, open_session, close_session}
use osclientcerts.Manager.Frame.{SameSessions-scan}
use osclientcerts.Manager.Invariant.{IsValid}

module _ (B : Backend) (m : Manager B) where
  -- In a valid manager the handle that is given out was not open; afterwards it is open with the
  -- flags that were asked for, and every other session is as it was.
  pub open_session-fresh :
      (os : B.Os) (flags : ℕ)
      → IsValid B m
      → ((open_session B os flags m).0 ≡ ok m.next_session)
        × (get m.sessions m.next_session ≡ none)
        × ((t : ℕ)
            → get (open_session B os flags m).1.sessions t
              ≡ (if m.next_session == t then some flags else get m.sessions t))
  unfolding open_session
  open_session-fresh os flags valid =
      let same = SameSessions-scan B os three_seconds m in
      (
        ap ok same.next_session,
        elim (Option-cases (get m.sessions m.next_session)) [
          | inl free ↦ free
          | inr (f, taken) ↦ absurd (omega (arith, valid.sessions_below.at m.next_session f taken))
        ],
        λ t. rw (same.next_session, same.sessions) (get-insert m.sessions m.next_session flags t),
      )

  -- Closing an open session leaves it no search and no operation of any kind, and the session is no
  -- longer open; closing it again is then an error.
  pub close_session-ends :
      (s flags : ℕ)
      → get m.sessions s ≡ some flags
      → ((close_session B s m).0 ≡ ok tt)
        × (get (close_session B s m).1.sessions s ≡ none)
        × (get (close_session B s m).1.searches s ≡ none)
        × (get (close_session B s m).1.signs s ≡ none)
        × (get (close_session B s m).1.decrypts s ≡ none)
        × (get (close_session B s m).1.encrypts s ≡ none)
        × ((close_session B s (close_session B s m).1).0 ≡ err tt)
  unfolding close_session
  close_session-ends s flags e = ground (
    arith,
    get-remove_self m.sessions s,
    get-remove_self m.searches s,
    get-remove_self m.signs s,
    get-remove_self m.decrypts s,
    get-remove_self m.encrypts s,
  )
