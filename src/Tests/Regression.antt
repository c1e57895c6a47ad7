-- ===== src/Tests/Regression.antt =====
-- A directory with a generated case, whose files hold their own names.
use osclientcerts.Prelude.{◌≡◌, refl, none, some, [], ◌∷◌, Bytes, All, bytes_eq, if◌then◌else◌}
use osclientcerts.ByteOrder.{little_endian}
use osclientcerts.Manager.Scan.{contains}
use osclientcerts.Text.{Text}
use osclientcerts.Regression.Manifest.{split_blocks, parse_manifest}
use osclientcerts.Text.{onto_first}
use osclientcerts.Regression.Objects.{Files, dir_env_var, manifest_txt, list_objects}
use osclientcerts.Regression.Generated.{full, case_blocks, manifest}
use osclientcerts.Regression.RoundTrip.{parse_manifest-manifest}
use osclientcerts.Regression.Served.{
  host, case_files, IsFile, served, case_blocks-IsBlock, list_objects-served,
}

abbrev content : Text → Bytes
content name = 0x30 ∷ name

abbrev case_directory : Files
case_directory = record {
  Os = Unit;
  PathBuf = Text;
  var = λ _ name. if bytes_eq name dir_env_var then some (b'.' ∷ []) else none;
  path_new = λ name. name;
  join = λ _ name. name;
  read_to_string =
      λ _ name. if bytes_eq name manifest_txt then some (manifest (case_blocks full)) else none;
  read = λ _ name. if contains (case_files full) name then some (content name) else none;
}

-- "a\n\nb"
split : split_blocks (b'a' ∷ 10 ∷ 10 ∷ b'b' ∷ []) ≡ (b'a' ∷ []) ∷ (b'b' ∷ []) ∷ []
unfolding split_blocks onto_first
split = refl

parse_manifest-manifest_example :
    parse_manifest (manifest (case_blocks full)) ≡ some (case_blocks full)
parse_manifest-manifest_example =
    parse_manifest-manifest (case_blocks full) (case_blocks-IsBlock full)

-- The files of the case are there, and no other.
files : All (IsFile content case_directory tt (b'.' ∷ [])) (case_files full)
unfolding contains bytes_eq
files = (refl, (refl, (refl, (refl, (refl, (refl, (refl, (refl, (refl, (refl, (refl, tt)))))))))))

variable : case_directory.var tt dir_env_var ≡ some (b'.' ∷ [])
unfolding bytes_eq
variable = refl

manifest_there : case_directory.read_to_string tt manifest_txt ≡ some (manifest (case_blocks full))
unfolding bytes_eq
manifest_there = refl

list_objects-served_example :
    list_objects host little_endian case_directory tt ≡ some (served content full)
list_objects-served_example =
    list_objects-served content case_directory tt (b'.' ∷ []) full variable manifest_there files
