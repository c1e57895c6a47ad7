-- ===== src/Cleanup/Profiles.antt =====
-- src/cert9_cleanup.rs: `find_profile_dir`. The environment, the file system and `PathBuf` are
-- parameters, as the record `Host`.
use osclientcerts.Prelude.{
  Bool, true, false, ◌&&◌, Option, none, some, List, [], ◌∷◌, ◌++◌, bytes_eq, if◌then◌else◌,
}
use osclientcerts.Text.{Text, trim, strip_prefix, strip_suffix, is_some, starts_with, lines}

-- `std::env::var`, `std::fs::read_to_string`, and the paths.
pub record Host : Type 1 where
  pub Os : Type 0
  pub PathBuf : Type 0
  pub var : Os → Text → Option Text
  pub read_to_string : Os → PathBuf → Option Text
  pub exists : Os → PathBuf → Bool
  pub path_from : Text → PathBuf
  pub join : PathBuf → Text → PathBuf

-- "OSCLIENTCERTS_PROFILE_DIR", "APPDATA", "Thunderbird", "profiles.ini"
abbrev pub profile_dir_override_env_var : Text
profile_dir_override_env_var =
    b'O' ∷ b'S' ∷ b'C' ∷ b'L' ∷ b'I' ∷ b'E' ∷ b'N' ∷ b'T' ∷ b'C' ∷ b'E' ∷ b'R' ∷ b'T' ∷ b'S' ∷ b'_'
    ∷ b'P' ∷ b'R' ∷ b'O' ∷ b'F' ∷ b'I' ∷ b'L' ∷ b'E' ∷ b'_' ∷ b'D' ∷ b'I' ∷ b'R' ∷ []

abbrev pub appdata : Text
appdata = b'A' ∷ b'P' ∷ b'P' ∷ b'D' ∷ b'A' ∷ b'T' ∷ b'A' ∷ []

abbrev pub thunderbird : Text
thunderbird = b'T' ∷ b'h' ∷ b'u' ∷ b'n' ∷ b'd' ∷ b'e' ∷ b'r' ∷ b'b' ∷ b'i' ∷ b'r' ∷ b'd' ∷ []

abbrev pub profiles_ini : Text
profiles_ini =
    b'p' ∷ b'r' ∷ b'o' ∷ b'f' ∷ b'i' ∷ b'l' ∷ b'e' ∷ b's' ∷ b'.' ∷ b'i' ∷ b'n' ∷ b'i' ∷ []

-- "Default=", "Path=", "IsRelative=", "Install", "Profile" and "1"
abbrev pub default_key : Text
default_key = b'D' ∷ b'e' ∷ b'f' ∷ b'a' ∷ b'u' ∷ b'l' ∷ b't' ∷ b'=' ∷ []

abbrev pub path_key : Text
path_key = b'P' ∷ b'a' ∷ b't' ∷ b'h' ∷ b'=' ∷ []

abbrev pub is_relative_key : Text
is_relative_key = b'I' ∷ b's' ∷ b'R' ∷ b'e' ∷ b'l' ∷ b'a' ∷ b't' ∷ b'i' ∷ b'v' ∷ b'e' ∷ b'=' ∷ []

abbrev pub install : Text
install = b'I' ∷ b'n' ∷ b's' ∷ b't' ∷ b'a' ∷ b'l' ∷ b'l' ∷ []

abbrev pub profile : Text
profile = b'P' ∷ b'r' ∷ b'o' ∷ b'f' ∷ b'i' ∷ b'l' ∷ b'e' ∷ []

abbrev pub one : Text
one = b'1' ∷ []

pub record Section : Type 0 where
  pub name : Text
  pub path : Option Text
  pub is_relative : Bool
  pub is_default : Bool

-- A section of that name, before its entries.
abbrev pub empty_section : Text → Section
empty_section name = record { name = name; path = none; is_relative = true; is_default = false }

-- The name in a line `[name]`.
unfoldable pub header : Text → Option Text
header line = elim (strip_prefix (b'[' ∷ []) line) [
  | none ↦ none
  | some rest ↦ strip_suffix b']' rest
]

-- A line within a section.
unfoldable pub entry : Text → Section → Section
entry line s = elim (strip_prefix default_key line) [
  | some value ↦
      if starts_with s.name install
      then record s { path = some (trim value); is_default = true }
      else record s { is_default = bytes_eq (trim value) one }
  | none ↦ elim (strip_prefix path_key line) [
    | some value ↦ record s { path = some (trim value) }
    | none ↦ elim (strip_prefix is_relative_key line) [
      | some value ↦ record s { is_relative = bytes_eq (trim value) one }
      | none ↦ s
    ]
  ]
]

-- The list `sections` with the section `current` at its end.
unfoldable pub push_current : List Section → Option Section → List Section
push_current sections none = sections
push_current sections (some s) = sections ++ s ∷ []

unfoldable pub in_current : Text → Option Section → Option Section
in_current line none = none
in_current line (some s) = some (entry line s)

-- The loop over the lines.
unfoldable pub read_lines : List Text → List Section → Option Section → List Section
read_lines [] sections current = push_current sections current
read_lines (raw_line ∷ rest) sections current = elim (header (trim raw_line)) [
  | some name ↦ read_lines rest (push_current sections current) (some (empty_section name))
  | none ↦ read_lines rest sections (in_current (trim raw_line) current)
]

unfoldable pub parse : Text → List Section
parse contents = read_lines (lines contents) [] none

-- `sections.iter().find(..)`
unfoldable pub find : (Section → Bool) → List Section → Option Section
find p [] = none
find p (s ∷ rest) = let later = find p rest in if p s then some s else later

unfoldable pub is_install : Section → Bool
is_install s = starts_with s.name install && is_some s.path

unfoldable pub is_default_profile : Section → Bool
is_default_profile s = starts_with s.name profile && s.is_default

unfoldable pub is_profile : Section → Bool
is_profile s = starts_with s.name profile && is_some s.path

-- `Option::or_else`
abbrev pub or_else : Option Section → Option Section → Option Section
or_else (some s) other = some s
or_else none other = other

unfoldable pub chosen : List Section → Option Section
chosen sections =
    or_else (find is_install sections)
      (or_else (find is_default_profile sections) (find is_profile sections))

module _ (h : Host) where
  -- The directory of a section.
  unfoldable pub directory : h.PathBuf → Section → Option h.PathBuf
  directory thunderbird_dir s = elim s.path [
    | none ↦ none
    | some path ↦
        if s.is_relative then some (h.join thunderbird_dir path) else some (h.path_from path)
  ]

  unfoldable pub chosen_directory : h.PathBuf → Option Section → Option h.PathBuf
  chosen_directory thunderbird_dir none = none
  chosen_directory thunderbird_dir (some s) = directory thunderbird_dir s

  unfoldable pub find_profile_dir : h.Os → Option h.PathBuf
  find_profile_dir os = elim (h.var os profile_dir_override_env_var) [
    | some dir ↦ some (h.path_from dir)
    | none ↦ elim (h.var os appdata) [
      | none ↦ none
      | some data_dir ↦
          let thunderbird_dir = h.join (h.path_from data_dir) thunderbird in
          elim (h.read_to_string os (h.join thunderbird_dir profiles_ini)) [
            | none ↦ none
            | some contents ↦ chosen_directory thunderbird_dir (chosen (parse contents))
          ]
    ]
  ]
