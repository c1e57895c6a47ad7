-- ===== src/Cleanup/Located.antt =====
-- Where a profiles.ini of the reference printer leads to.
use osclientcerts.Prelude.{◌≡◌, refl, true, false, Option, none, some, List, [], ◌∷◌, All, map}
use osclientcerts.Text.{Text, is_some, starts_with, strip_prefix}
use osclientcerts.Cleanup.Profiles.{
  Host, Section, find, is_install, is_default_profile, is_profile, or_else, chosen,
  chosen_directory, directory, find_profile_dir, profile_dir_override_env_var, appdata, thunderbird,
  profiles_ini,
}
use osclientcerts.Cleanup.Printed.{
  Entry, installed, profiled, general, print_entries, section_of, IsPrintable, first_installed,
  first_default, first_profiled, else_entry, wanted, entry_directory,
}
use osclientcerts.Text.Lines.{Eol, unlines}
use osclientcerts.Cleanup.RoundTrip.{parse-print_entries}

section : Option Entry → Option Section
section none = none
section (some e) = some (section_of e)

find-first_installed :
    (es : List Entry) → find is_install (map section_of es) ≡ section (first_installed es)
unfolding find is_install first_installed section section_of starts_with strip_prefix is_some
find-first_installed [] = refl
find-first_installed (installed suffix path ∷ es) = refl
find-first_installed (profiled suffix path r d ∷ es) = find-first_installed es
find-first_installed (general ∷ es) = find-first_installed es

find-first_default :
    (es : List Entry) → find is_default_profile (map section_of es) ≡ section (first_default es)
unfolding find is_default_profile first_default section section_of starts_with strip_prefix is_some
find-first_default [] = refl
find-first_default (installed suffix path ∷ es) = find-first_default es
find-first_default (profiled suffix path r true ∷ es) = refl
find-first_default (profiled suffix path r false ∷ es) = find-first_default es
find-first_default (general ∷ es) = find-first_default es

find-first_profiled :
    (es : List Entry) → find is_profile (map section_of es) ≡ section (first_profiled es)
unfolding find is_profile first_profiled section section_of starts_with strip_prefix is_some
find-first_profiled [] = refl
find-first_profiled (installed suffix path ∷ es) = find-first_profiled es
find-first_profiled (profiled suffix path r d ∷ es) = refl
find-first_profiled (general ∷ es) = find-first_profiled es

or_else-section : (e f : Option Entry) → or_else (section e) (section f) ≡ section (else_entry e f)
unfolding section
or_else-section none f = refl
or_else-section (some e) f = refl

chosen-wanted : (es : List Entry) → chosen (map section_of es) ≡ section (wanted es)
unfolding chosen wanted
chosen-wanted es =
    rw
      (
        find-first_installed es,
        find-first_default es,
        find-first_profiled es,
        or_else-section (first_default es) (first_profiled es),
      )
      (or_else-section (first_installed es) (else_entry (first_default es) (first_profiled es)))

directory-section :
    (h : Host) (dir : h.PathBuf) (e : Option Entry)
    → chosen_directory h dir (section e) ≡ entry_directory h dir e
unfolding chosen_directory section directory section_of entry_directory
directory-section h dir none = refl
directory-section h dir (some (installed suffix path)) = refl
directory-section h dir (some (profiled suffix path true d)) = refl
directory-section h dir (some (profiled suffix path false d)) = refl
directory-section h dir (some general) = refl

module _ (h : Host) (os : h.Os) where
  -- Where the override is not set, and profiles.ini holds entries with plain names and paths, with
  -- either end of line, the profile directory is that of the first installation, or else of the
  -- first profile that is marked as the default, or else of the first profile: below the
  -- directory of Thunderbird if the path is relative.
  pub find_profile_dir-wanted :
      (eol : Eol) (es : List Entry) (data_dir : Text)
      → All IsPrintable es
      → h.var os profile_dir_override_env_var ≡ none
      → h.var os appdata ≡ some data_dir
      → h.read_to_string os (h.join (h.join (h.path_from data_dir) thunderbird) profiles_ini)
        ≡ some (unlines eol (print_entries es))
      → find_profile_dir h os
        ≡ entry_directory h (h.join (h.path_from data_dir) thunderbird) (wanted es)
  unfolding find_profile_dir
  find_profile_dir-wanted eol es data_dir printable override dir contents =
      let thunderbird_dir = h.join (h.path_from data_dir) thunderbird in
      rw
        (
          override,
          dir,
          contents,
          parse-print_entries eol es printable,
          chosen-wanted es,
          find_profile_dir,
        )
        (directory-section h thunderbird_dir (wanted es))
