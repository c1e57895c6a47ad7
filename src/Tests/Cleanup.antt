-- ===== src/Tests/Cleanup.antt =====
-- A host with a profiles.ini and a database of two rows.
use osclientcerts.Prelude.{
  ◌&&◌, ◌≡◌, refl, Bool, true, false, not, Option, none, some, List, [], ◌∷◌, ◌++◌, ok, Bytes,
  bytes_eq, filter, All, if◌then◌else◌,
}
use osclientcerts.Text.{Text, is_whitespace, trim_start, keep_before, trim_end}
use osclientcerts.Cleanup.Profiles.{
  Host, parse, find_profile_dir, profile_dir_override_env_var, appdata, thunderbird,
}
use osclientcerts.Cleanup.Printed.{
  Entry, profiled, general, print_entries, section_of, IsPrintable, wanted, first_installed,
  first_default, entry_directory,
}
use osclientcerts.Cleanup.RoundTrip.{parse-print_entries}
use osclientcerts.Cleanup.Located.{find_profile_dir-wanted}
use osclientcerts.Cleanup.Pass.{
  Sqlite, DeletesRows, is_selected, is_equal, cko_certificate_bytes, run_pass_with, open_cert9_db,
}
use osclientcerts.Cleanup.Stale.{is_stale, run_pass_with-others, run_pass_with-removes}
use osclientcerts.Text.Lines.{crlf, unlines}

-- "P/a", relative, and "b", which is the default.
abbrev entries : List Entry
entries =
    general
    ∷ profiled (b'0' ∷ []) (b'P' ∷ b'/' ∷ b'a' ∷ []) true false
    ∷ profiled (b'1' ∷ []) (b'b' ∷ []) false true
    ∷ []

plain_entries : All IsPrintable entries
unfolding trim_start keep_before trim_end is_whitespace
plain_entries = (
  tt,
  (
    ((refl, tt), record { no_feed = (refl, (refl, (refl, tt))); start = refl; end = refl }),
    (((refl, tt), record { no_feed = (refl, tt); start = refl; end = refl }), tt),
  ),
)

parse-print_entries_example :
    parse (unlines crlf (print_entries entries))
    ≡ section_of general
      ∷ section_of (profiled (b'0' ∷ []) (b'P' ∷ b'/' ∷ b'a' ∷ []) true false)
      ∷ section_of (profiled (b'1' ∷ []) (b'b' ∷ []) false true)
      ∷ []
parse-print_entries_example = parse-print_entries crlf entries plain_entries

-- The data directory is "d", every file has the entries, and the gate is as the state says.
abbrev host : Host
host = record {
  Os = Bool;
  PathBuf = Text;
  var = λ gate name.
      if bytes_eq name profile_dir_override_env_var
      then none
      else if bytes_eq name appdata
      then some (b'd' ∷ [])
      else if gate
      then some (b'1' ∷ [])
      else none;
  read_to_string = λ _ _. some (unlines crlf (print_entries entries));
  exists = λ _ _. true;
  path_from = λ s. s;
  join = λ dir s. dir ++ b'/' ∷ s;
}

find_profile_dir-wanted_example :
    find_profile_dir host true ≡ entry_directory host (b'd' ∷ b'/' ∷ thunderbird) (wanted entries)
unfolding bytes_eq
find_profile_dir-wanted_example =
    find_profile_dir-wanted host true crlf entries (b'd' ∷ []) plain_entries refl refl refl

-- A row is its two columns.
record Row : Type 0 where
  pub class : Option Bytes
  pub value : Option Bytes

abbrev sqlite : Sqlite host
sqlite = record {
  Db = List Row;
  Connection = Unit;
  open_with_flags = λ _ _. ok tt;
  busy_timeout = λ _ _ _. ok tt;
  delete = λ _ class value db.
      (ok 1, filter (λ r. not (is_equal r.class class && is_equal r.value value)) db);
  Row = Row;
  a0 = λ r. r.class;
  a11 = λ r. r.value;
  rows = λ db. db;
}

laws : DeletesRows host sqlite
unfolding is_selected
laws = record { removed = λ conn class value db n e. refl; failed = λ conn class value db e f. cc }

-- A certificate of the user's, and something else.
abbrev database : List Row
database =
    record { class = some cko_certificate_bytes; value = some (0x30 ∷ 1 ∷ []) }
    ∷ record { class = none; value = some (0x30 ∷ 1 ∷ []) }
    ∷ []

abbrev live : List Bytes
live = (0x30 ∷ 1 ∷ []) ∷ []

run_pass_with-others_example :
    filter (λ r. not (is_stale host sqlite live r)) (run_pass_with host sqlite true live database)
    ≡ filter (λ r. not (is_stale host sqlite live r)) database
run_pass_with-others_example = run_pass_with-others host sqlite laws true live database

found : find_profile_dir host true ≡ some (b'b' ∷ [])
unfolding entry_directory wanted first_installed first_default
found = find_profile_dir-wanted_example

run_pass_with-removes_example :
    run_pass_with host sqlite true live database
    ≡ filter (λ r. not (is_stale host sqlite live r)) database
unfolding open_cert9_db
run_pass_with-removes_example =
    run_pass_with-removes host sqlite laws true live database _ tt found refl refl (λ der db. refl)
