-- ===== src/Manager/Frame.antt =====
-- What a scan leaves alone: the sessions, their operations and the session counter.
use osclientcerts.Prelude.{◌≡◌, refl, ◌∙◌, List, [], ◌∷◌, ℕ, inl, inr, Bool-cases, arith, some}
use osclientcerts.Backend.{Backend, ObjectOf, cert, key, trust}
use osclientcerts.Manager.State.{Manager}
use osclientcerts.Manager.Scan.{
  add_object, admit, admit_all, scanned_recently, maybe_find_new_objects,
}

-- The two managers differ in their objects and in what they know of the scans at most.
pub record SameSessions {B : Backend} (m n : Manager B) : Type 0 where
  pub sessions : n.sessions ≡ m.sessions
  pub searches : n.searches ≡ m.searches
  pub signs : n.signs ≡ m.signs
  pub decrypts : n.decrypts ≡ m.decrypts
  pub encrypts : n.encrypts ≡ m.encrypts
  pub next_session : n.next_session ≡ m.next_session

module _ (B : Backend) where
  SameSessions-refl : (m : Manager B) → SameSessions m m
  SameSessions-refl m = record {
    sessions = refl;
    searches = refl;
    signs = refl;
    decrypts = refl;
    encrypts = refl;
    next_session = refl;
  }

  SameSessions-trans : {m n o : Manager B} → SameSessions m n → SameSessions n o → SameSessions m o
  SameSessions-trans a b = record {
    sessions = b.sessions ∙ a.sessions;
    searches = b.searches ∙ a.searches;
    signs = b.signs ∙ a.signs;
    decrypts = b.decrypts ∙ a.decrypts;
    encrypts = b.encrypts ∙ a.encrypts;
    next_session = b.next_session ∙ a.next_session;
  }

  SameSessions-admit : (m : Manager B) (o : ObjectOf B) → SameSessions m (admit B m o)
  unfolding admit add_object
  SameSessions-admit m (cert c) = ground arith
  SameSessions-admit m (key c) = ground arith
  SameSessions-admit m (trust c) = ground arith

  SameSessions-admit_all :
      (objects : List (ObjectOf B)) (m : Manager B) → SameSessions m (admit_all B m objects)
  unfolding admit_all
  SameSessions-admit_all [] m = SameSessions-refl m
  SameSessions-admit_all (o ∷ objects) m =
      SameSessions-trans (SameSessions-admit m o) (SameSessions-admit_all objects (admit B m o))

  pub SameSessions-scan :
      (os : B.Os) (interval : ℕ) (m : Manager B)
      → SameSessions m (maybe_find_new_objects B os interval m)
  unfolding maybe_find_new_objects
  SameSessions-scan os interval m =
      elim (Bool-cases (scanned_recently m.last_scan_time (B.now os) interval)) [
        | inl early ↦ rw early (SameSessions-refl m)
        | inr late ↦
            let s : Manager B = record m { last_scan_time = some (B.now os) } in
            let all = SameSessions-admit_all (B.list_objects os) s in
            rw late (record {
              sessions = all.sessions;
              searches = all.searches;
              signs = all.signs;
              decrypts = all.decrypts;
              encrypts = all.encrypts;
              next_session = all.next_session;
            })
      ]
