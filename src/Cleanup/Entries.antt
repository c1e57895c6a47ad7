-- ===== src/Cleanup/Entries.antt =====
-- How the lines of one entry are read.
use mathlib.Core.List.{append-nil, append_assoc}
use osclientcerts.Prelude.{
  sym, ◌≡◌, refl, Bool, true, false, Option, none, some, List, [], ◌∷◌, ◌++◌, All, map, ap, ◌∙◌,
  bytes_eq,
}
use osclientcerts.Text.{
  Text, is_whitespace, trim_start, keep_before, trim_end, trim, strip_prefix, is_some, starts_with,
}
use osclientcerts.Cleanup.Profiles.{
  Section, header, entry, empty_section, in_current, push_current, read_lines, install, profile,
  default_key, path_key, is_relative_key,
}
use osclientcerts.Text.Lines.{IsPlain, is_solid, trim_end-append, trim_end-snoc, strip_suffix-snoc}
use osclientcerts.Cleanup.Printed.{
  Entry, installed, profiled, general, print_bool, general_name, version, print_header, print_entry,
  print_entries, section_of, IsPrintable,
}

trim-print_header : (name : Text) → trim (print_header name) ≡ print_header name
unfolding trim trim_start is_whitespace
trim-print_header name = trim_end-snoc (b'[' ∷ name) b']' refl

header-print_header : (name : Text) → header (print_header name) ≡ some name
unfolding header strip_prefix
header-print_header name = strip_suffix-snoc name b']'

-- The line `[name]` ends the section before it.
read_lines-header :
    (name : Text) (rest : List Text) (sections : List Section) (current : Option Section)
    → read_lines (print_header name ∷ rest) sections current
      ≡ read_lines rest (push_current sections current) (some (empty_section name))
unfolding read_lines
read_lines-header name rest sections current =
    rw (trim-print_header name, header-print_header name, read_lines) refl

-- A key and a plain value.
trim-default :
    (value : Text) → trim_end value ≡ value → trim (default_key ++ value) ≡ default_key ++ value
unfolding trim trim_start is_whitespace is_solid
trim-default value e = trim_end-append default_key value refl e

trim-path : (value : Text) → trim_end value ≡ value → trim (path_key ++ value) ≡ path_key ++ value
unfolding trim trim_start is_whitespace is_solid
trim-path value e = trim_end-append path_key value refl e

trim-is_relative :
    (value : Text)
    → trim_end value ≡ value
    → trim (is_relative_key ++ value) ≡ is_relative_key ++ value
unfolding trim trim_start is_whitespace is_solid
trim-is_relative value e = trim_end-append is_relative_key value refl e

-- A line that is no header is an entry of the section.
read_lines-entry :
    (line : Text) (rest : List Text) (sections : List Section) (s : Section)
    → trim line ≡ line
    → header line ≡ none
    → read_lines (line ∷ rest) sections (some s) ≡ read_lines rest sections (some (entry line s))
unfolding read_lines in_current
read_lines-entry line rest sections s e h =
    rw (e, h, read_lines) (ap (λ l. read_lines rest sections (in_current l (some s))) e)

trim-plain : (path : Text) → IsPlain path → trim path ≡ path
unfolding trim
trim-plain path plain = rw (plain.start, plain.end) refl

entry-installed :
    (suffix path : Text)
    → trim path ≡ path
    → entry (default_key ++ path) (empty_section (install ++ suffix))
      ≡ section_of (installed suffix path)
unfolding entry strip_prefix starts_with is_some section_of
entry-installed suffix path e = rw e refl

entry-path :
    (path : Text) (s : Section)
    → trim path ≡ path
    → entry (path_key ++ path) s ≡ record s { path = some path }
unfolding entry strip_prefix
entry-path path s e = rw e refl

pub print_bool-end : (b : Bool) → trim_end (print_bool b) ≡ print_bool b
unfolding print_bool trim_end keep_before is_whitespace
print_bool-end true = refl
print_bool-end false = refl

entry-is_relative :
    (b : Bool) (s : Section)
    → entry (is_relative_key ++ print_bool b) s ≡ record s { is_relative = b }
unfolding entry strip_prefix print_bool trim trim_start trim_end keep_before is_whitespace bytes_eq
entry-is_relative true s = refl
entry-is_relative false s = refl

entry-is_default :
    (b : Bool) (s : Section)
    → starts_with s.name install ≡ false
    → entry (default_key ++ print_bool b) s ≡ record s { is_default = b }
unfolding entry strip_prefix print_bool trim trim_start trim_end keep_before is_whitespace bytes_eq
entry-is_default true s h = rw h refl
entry-is_default false s h = rw h refl

profile-install : (suffix : Text) → starts_with (profile ++ suffix) install ≡ false
unfolding starts_with strip_prefix is_some
profile-install suffix = refl

version-trim : trim version ≡ version
unfolding trim trim_start trim_end keep_before is_whitespace
version-trim = refl

-- The lines of an entry end the section before it, and are read as its section.
read_lines-print_entry :
    (e : Entry) (rest : List Text) (sections : List Section) (current : Option Section)
    → IsPrintable e
    → read_lines (print_entry e ++ rest) sections current
      ≡ read_lines rest (push_current sections current) (some (section_of e))
unfolding print_entry header strip_prefix section_of entry
read_lines-print_entry (installed suffix path) rest sections current (_, plain) =
    let pushed = push_current sections current in
    let named = empty_section (install ++ suffix) in
    read_lines-header (install ++ suffix) ((default_key ++ path) ∷ rest) sections current
    ∙ read_lines-entry (default_key ++ path) rest pushed named (trim-default path plain.end) refl
    ∙ ap (λ s. read_lines rest pushed (some s))
        (entry-installed suffix path (trim-plain path plain))
read_lines-print_entry general rest sections current _ =
    read_lines-header general_name (version ∷ rest) sections current
    ∙ read_lines-entry version rest (push_current sections current) (empty_section general_name)
        version-trim refl
read_lines-print_entry (profiled suffix path relative default) rest sections current (_, plain) =
    let pushed = push_current sections current in
    let named = empty_section (profile ++ suffix) in
    let with_path : Section = record named { path = some path } in
    let with_relative : Section = record with_path { is_relative = relative } in
    let relative_line = is_relative_key ++ print_bool relative in
    let default_line = default_key ++ print_bool default in
    read_lines-header (profile ++ suffix) ((path_key ++ path) ∷ relative_line ∷ default_line ∷ rest)
      sections current
    ∙ read_lines-entry (path_key ++ path) (relative_line ∷ default_line ∷ rest) pushed named
        (trim-path path plain.end) refl
    ∙ ap (λ s. read_lines (relative_line ∷ default_line ∷ rest) pushed (some s))
        (entry-path path named (trim-plain path plain))
    ∙ read_lines-entry relative_line (default_line ∷ rest) pushed with_path
        (trim-is_relative (print_bool relative) (print_bool-end relative)) refl
    ∙ ap (λ s. read_lines (default_line ∷ rest) pushed (some s))
        (entry-is_relative relative with_path)
    ∙ read_lines-entry default_line rest pushed with_relative
        (trim-default (print_bool default) (print_bool-end default)) refl
    ∙ ap (λ s. read_lines rest pushed (some s))
        (entry-is_default default with_relative (profile-install suffix))

pub read_lines-print_entries :
    (es : List Entry) (sections : List Section) (current : Option Section)
    → All IsPrintable es
    → read_lines (print_entries es) sections current
      ≡ push_current sections current ++ map section_of es
unfolding print_entries read_lines push_current
read_lines-print_entries [] sections current _ = sym (append-nil (push_current sections current))
read_lines-print_entries (e ∷ es) sections current (h, hs) =
    read_lines-print_entry e (print_entries es) sections current h
    ∙ read_lines-print_entries es (push_current sections current) (some (section_of e)) hs
    ∙ append_assoc (push_current sections current) (section_of e ∷ []) (map section_of es)
