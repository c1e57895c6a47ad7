-- ===== src/Cleanup/Stale.antt =====
-- What a pass removes of the database, and what it leaves.
use osclientcerts.Prelude.{
  if◌then◌else◌, ◌≡◌, refl, ◌∙◌, ap, sym, ok_of_is_ok, Bool, true, false, not, ◌||◌, some, List, [],
  ◌∷◌, ok, is_ok, Bytes, filter, arith, Bool-cases, Option-cases, Result-cases, inl, inr,
}
use osclientcerts.Cleanup.Profiles.{Host, find_profile_dir}
use osclientcerts.Cleanup.Pass.{
  Sqlite, cko_certificate_bytes, cert9_db, is_empty, is_selected, DeletesRows, open_cert9_db,
  delete_all, run_pass_with,
}

filter_keeps {ℓ} :
    {A : Type ℓ} (p m : A → Bool)
    → ((a : A) → m a ≡ true → p a ≡ false)
    → (xs : List A) → filter p (filter (λ a. not (m a)) xs) ≡ filter p xs
filter_keeps p m h [] = refl
filter_keeps p m h (x ∷ xs) = ground (arith, filter_keeps p m h xs, h x)

filter_twice {ℓ} :
    {A : Type ℓ} (m n : A → Bool) (xs : List A)
    → filter (λ a. not (n a)) (filter (λ a. not (m a)) xs) ≡ filter (λ a. not (m a || n a)) xs
filter_twice m n [] = refl
filter_twice m n (x ∷ xs) = ground (arith, filter_twice m n xs)

filter_all {ℓ} : {A : Type ℓ} (xs : List A) → filter (λ a. true) xs ≡ xs
filter_all [] = refl
filter_all (x ∷ xs) = ap (λ l. x ∷ l) (filter_all xs)

module _ (h : Host) (q : Sqlite h) where
  -- CKO_CERTIFICATE, in four bytes with the high one first.
  abbrev certificate_class : Bytes
  certificate_class = 0 ∷ 0 ∷ 0 ∷ 1 ∷ []

  -- The row of a certificate whose value is one of the given ones.
  unfoldable pub is_stale : List Bytes → q.Row → Bool
  is_stale [] r = false
  is_stale (der ∷ ders) r = is_selected h q certificate_class der r || is_stale ders r

  module _ (laws : DeletesRows h q) (conn : q.Connection) where
    delete-others :
        (p : q.Row → Bool) (der : Bytes) (db : q.Db)
        → ((r : q.Row) → is_selected h q cko_certificate_bytes der r ≡ true → p r ≡ false)
        → filter p (q.rows (q.delete conn cko_certificate_bytes der db).1) ≡ filter p (q.rows db)
    delete-others p der db apart =
        elim (Result-cases (q.delete conn cko_certificate_bytes der db).0) [
          | inl (e, failed) ↦ rw (laws.failed conn cko_certificate_bytes der db e failed) refl
          | inr (n, removed) ↦
              rw (laws.removed conn cko_certificate_bytes der db n removed)
                (filter_keeps p (is_selected h q cko_certificate_bytes der) apart (q.rows db))
        ]

    delete_all-others :
        (p : q.Row → Bool) (ders : List Bytes) (db : q.Db)
        → ((r : q.Row) → is_stale ders r ≡ true → p r ≡ false)
        → filter p (q.rows (delete_all h q conn ders db)) ≡ filter p (q.rows db)
    unfolding delete_all is_stale
    delete_all-others p [] db apart = refl
    delete_all-others p (der ∷ ders) db apart =
        delete_all-others p ders (q.delete conn cko_certificate_bytes der db).1
          (λ r stale. apart r (ground arith))
        ∙ delete-others p der db (λ r selected. apart r (rw selected refl))

    delete_all-removes :
        ((der : Bytes) (db : q.Db) → is_ok (q.delete conn cko_certificate_bytes der db).0 ≡ true)
        → (ders : List Bytes) (db : q.Db)
        → q.rows (delete_all h q conn ders db) ≡ filter (λ r. not (is_stale ders r)) (q.rows db)
    unfolding delete_all is_stale
    delete_all-removes succeeds [] db = sym (filter_all (q.rows db))
    delete_all-removes succeeds (der ∷ ders) db =
        let (n, removed) =
          ok_of_is_ok (q.delete conn cko_certificate_bytes der db).0 (succeeds der db) in
        delete_all-removes succeeds ders (q.delete conn cko_certificate_bytes der db).1
        ∙ ap (filter (λ r. not (is_stale ders r)))
            (laws.removed conn cko_certificate_bytes der db n removed)
        ∙ filter_twice (is_selected h q cko_certificate_bytes der) (is_stale ders) (q.rows db)

  -- A pass without certificates is none.
  skip_empty :
      (conn : q.Connection) (ders : List Bytes) (db : q.Db)
      → (if is_empty ders then db else delete_all h q conn ders db) ≡ delete_all h q conn ders db
  unfolding is_empty delete_all
  skip_empty conn [] db = refl
  skip_empty conn (der ∷ ders) db = refl

  module _ (laws : DeletesRows h q) (os : h.Os) (live_certs : List Bytes) (db : q.Db) where
    -- Where the statement deletes the rows that its condition selects, and none if it fails, a pass
    -- leaves every row of the database that is not that of a listed certificate: where it does
    -- nothing, and where statements fail, as well.
    pub run_pass_with-others :
        filter (λ r. not (is_stale live_certs r)) (q.rows (run_pass_with h q os live_certs db))
        ≡ filter (λ r. not (is_stale live_certs r)) (q.rows db)
    unfolding run_pass_with
    run_pass_with-others = elim (Option-cases (find_profile_dir h os)) [
      | inl e ↦ rw (e, run_pass_with) refl
      | inr (dir, e) ↦ elim (Bool-cases (h.exists os (h.join dir cert9_db))) [
        | inr missing ↦ rw (e, missing, run_pass_with) refl
        | inl exists ↦ elim (Result-cases (open_cert9_db h q os (h.join dir cert9_db))) [
          | inl (_, closed) ↦ elim (Bool-cases (is_empty live_certs)) [
            | inl none_live ↦ rw (e, exists, none_live, run_pass_with) refl
            | inr live ↦ rw (e, exists, live, closed, run_pass_with) refl
          ]
          | inr (conn, opened) ↦
              rw (e, exists, opened, run_pass_with, skip_empty conn live_certs db)
                (delete_all-others laws conn _ live_certs db (λ r stale. rw stale refl))
        ]
      ]
    ]

    -- Where the statement deletes the rows that its condition selects, a profile directory with a
    -- database is found, the database can be opened and no statement fails, a pass leaves just the
    -- rows that are not those of a listed certificate.
    pub run_pass_with-removes :
        (profile_dir : h.PathBuf) (conn : q.Connection)
        → find_profile_dir h os ≡ some profile_dir
        → h.exists os (h.join profile_dir cert9_db) ≡ true
        → open_cert9_db h q os (h.join profile_dir cert9_db) ≡ ok conn
        → ((der : Bytes) (db : q.Db) → is_ok (q.delete conn cko_certificate_bytes der db).0 ≡ true)
        → q.rows (run_pass_with h q os live_certs db)
          ≡ filter (λ r. not (is_stale live_certs r)) (q.rows db)
    unfolding run_pass_with
    run_pass_with-removes profile_dir conn found exists opened succeeds =
        rw (found, exists, opened, run_pass_with, skip_empty conn live_certs db)
          (delete_all-removes laws conn succeeds live_certs db)
