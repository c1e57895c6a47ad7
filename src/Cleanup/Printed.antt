-- ===== src/Cleanup/Printed.antt =====
-- A reference printer for profiles.ini: sections as Thunderbird has them, with the keys that the
-- program reads.
use osclientcerts.Prelude.{Bool, true, false, Option, none, some, List, [], ◌∷◌, ◌++◌}
use osclientcerts.Text.{Text}
use osclientcerts.Text.Lines.{HasNoFeed, IsPlain}
use osclientcerts.Cleanup.Profiles.{
  Host, Section, install, profile, default_key, path_key, is_relative_key, one,
}

-- An installation with its profile, a profile with a path and whether it is relative and the
-- default, or the general settings.
pub data Entry : Type 0 where
  installed : Text → Text → Entry
  profiled : Text → Text → Bool → Bool → Entry
  general : Entry

unfoldable pub print_bool : Bool → Text
print_bool true = one
print_bool false = b'0' ∷ []

abbrev pub general_name : Text
general_name = b'G' ∷ b'e' ∷ b'n' ∷ b'e' ∷ b'r' ∷ b'a' ∷ b'l' ∷ []

-- "Version=2"
abbrev pub version : Text
version = b'V' ∷ b'e' ∷ b'r' ∷ b's' ∷ b'i' ∷ b'o' ∷ b'n' ∷ b'=' ∷ b'2' ∷ []

abbrev pub print_header : Text → Text
print_header name = b'[' ∷ (name ++ b']' ∷ [])

unfoldable pub print_entry : Entry → List Text
unfolding print_bool
print_entry (installed suffix path) = print_header (install ++ suffix) ∷ (default_key ++ path) ∷ []
print_entry (profiled suffix path is_relative is_default) =
    print_header (profile ++ suffix)
    ∷ (path_key ++ path)
    ∷ (is_relative_key ++ print_bool is_relative)
    ∷ (default_key ++ print_bool is_default)
    ∷ []
print_entry general = print_header general_name ∷ version ∷ []

unfoldable pub print_entries : List Entry → List Text
print_entries [] = []
print_entries (e ∷ es) = print_entry e ++ print_entries es

-- The section that is read of an entry.
unfoldable pub section_of : Entry → Section
section_of (installed suffix path) = record {
  name = install ++ suffix;
  path = some path;
  is_relative = true;
  is_default = true;
}
section_of (profiled suffix path is_relative is_default) = record {
  name = profile ++ suffix;
  path = some path;
  is_relative = is_relative;
  is_default = is_default;
}
section_of general = record {
  name = general_name;
  path = none;
  is_relative = true;
  is_default = false;
}

abbrev pub IsPrintable : Entry → Type 0
IsPrintable (installed suffix path) = HasNoFeed suffix × IsPlain path
IsPrintable (profiled suffix path is_relative is_default) = HasNoFeed suffix × IsPlain path
IsPrintable general = Unit

-- The profile that Thunderbird starts: that of the first installation, or else the first that is
-- marked as the default, or else the first.
unfoldable pub first_installed : List Entry → Option Entry
first_installed [] = none
first_installed (installed suffix path ∷ es) = some (installed suffix path)
first_installed (profiled _ _ _ _ ∷ es) = first_installed es
first_installed (general ∷ es) = first_installed es

unfoldable pub first_default : List Entry → Option Entry
first_default [] = none
first_default (profiled suffix path r true ∷ es) = some (profiled suffix path r true)
first_default (profiled _ _ _ false ∷ es) = first_default es
first_default (installed _ _ ∷ es) = first_default es
first_default (general ∷ es) = first_default es

unfoldable pub first_profiled : List Entry → Option Entry
first_profiled [] = none
first_profiled (profiled suffix path r d ∷ es) = some (profiled suffix path r d)
first_profiled (installed _ _ ∷ es) = first_profiled es
first_profiled (general ∷ es) = first_profiled es

abbrev pub else_entry : Option Entry → Option Entry → Option Entry
else_entry (some e) other = some e
else_entry none other = other

unfoldable pub wanted : List Entry → Option Entry
wanted es = else_entry (first_installed es) (else_entry (first_default es) (first_profiled es))

-- The directory of an entry, where Thunderbird keeps its data in the given one.
unfoldable pub entry_directory : (h : Host) → h.PathBuf → Option Entry → Option h.PathBuf
entry_directory h dir (some (installed _ path)) = some (h.join dir path)
entry_directory h dir (some (profiled _ path true _)) = some (h.join dir path)
entry_directory h dir (some (profiled _ path false _)) = some (h.path_from path)
entry_directory h dir (some general) = none
entry_directory h dir none = none
