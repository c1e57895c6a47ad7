-- ===== src/Cleanup/Pass.antt =====
-- src/cert9_cleanup.rs: `run_pass`. SQLite (the `rusqlite` crate) is a parameter.
use osclientcerts.Prelude.{
  ℕ, ◌≡◌, Bool, true, false, not, ◌&&◌, Option, none, some, List, [], ◌∷◌, Result, ok, err, ◌>>=◌,
  ◌>>◌, Bytes, bytes_eq, filter, if◌then◌else◌,
}
use osclientcerts.ByteOrder.{ByteOrder}
use osclientcerts.Cryptoki.{Cryptoki}
use osclientcerts.Windows.Api.{WindowsApi}
use osclientcerts.Windows.Listing.{list_objects, cert_values}
use osclientcerts.Text.{Text}
use osclientcerts.Cleanup.Profiles.{Host, find_profile_dir}

pub record Sqlite (h : Host) : Type 1 where
  -- The database file, of which a connection changes the state.
  pub Db : Type 0
  pub Connection : Type 0
  pub open_with_flags : h.Os → h.PathBuf → Result Connection Unit
  -- In milliseconds.
  pub busy_timeout : h.Os → Connection → ℕ → Result (Unit {0}) Unit
  -- The statement DELETE FROM nssPublic WHERE a0 = ?1 AND a11 = ?2: how many rows it removed, or
  -- that it failed.
  pub delete : Connection → Bytes → Bytes → Db → Result ℕ Unit × Db
  -- The rows of the table nssPublic, with two of their columns; `none` is NULL.
  pub Row : Type 0
  pub a0 : Row → Option Bytes
  pub a11 : Row → Option Bytes
  pub rows : Db → List Row

-- A column is equal to a value. NULL is equal to none.
unfoldable pub is_equal : Option Bytes → Bytes → Bool
is_equal none value = false
is_equal (some column) value = bytes_eq column value

-- `CKO_CERTIFICATE_BYTES`
abbrev pub cko_certificate_bytes : Bytes
cko_certificate_bytes = 0 ∷ 0 ∷ 0 ∷ 1 ∷ []

-- "cert9.db"
abbrev pub cert9_db : Text
cert9_db = b'c' ∷ b'e' ∷ b'r' ∷ b't' ∷ b'9' ∷ b'.' ∷ b'd' ∷ b'b' ∷ []

unfoldable pub is_empty : List Bytes → Bool
is_empty [] = true
is_empty (_ ∷ _) = false

module _ (h : Host) (q : Sqlite h) where
  -- The rows that the statement removes.
  unfoldable pub is_selected : Bytes → Bytes → q.Row → Bool
  is_selected class value r = is_equal (q.a0 r) class && is_equal (q.a11 r) value

  -- What the statement does.
  pub record DeletesRows : Type 0 where
    pub removed :
        (conn : q.Connection) (class value : Bytes) (db : q.Db) (n : ℕ)
        → (q.delete conn class value db).0 ≡ ok n
        → q.rows (q.delete conn class value db).1
          ≡ filter (λ r. not (is_selected class value r)) (q.rows db)
    pub failed :
        (conn : q.Connection) (class value : Bytes) (db : q.Db) (e : Unit)
        → (q.delete conn class value db).0 ≡ err e
        → q.rows (q.delete conn class value db).1 ≡ q.rows db

  unfoldable pub open_cert9_db : h.Os → h.PathBuf → Result q.Connection Unit
  open_cert9_db os path = do conn ← q.open_with_flags os path; q.busy_timeout os conn 2000; ok conn

  -- The loop over the certificates: a statement that fails is only logged.
  unfoldable pub delete_all : q.Connection → List Bytes → q.Db → q.Db
  delete_all conn [] db = db
  delete_all conn (der ∷ live_certs) db =
      delete_all conn live_certs (q.delete conn cko_certificate_bytes der db).1

  -- A pass with the certificates that are listed.
  unfoldable pub run_pass_with : h.Os → List Bytes → q.Db → q.Db
  run_pass_with os live_certs db = elim (find_profile_dir h os) [
    | none ↦ db
    | some profile_dir ↦
        let db_path = h.join profile_dir cert9_db in
        if not (h.exists os db_path)
        then db
        else if is_empty live_certs
        then db
        else elim (open_cert9_db os db_path) [
          | err _ ↦ db
          | ok conn ↦ delete_all conn live_certs db
        ]
  ]

  unfoldable pub run_pass :
      (k : Cryptoki) (o : ByteOrder) (w : WindowsApi) → h.Os → w.Os → q.Db → q.Db
  run_pass k o w os windows db =
      run_pass_with os (cert_values k o w (list_objects k o w windows)) db
