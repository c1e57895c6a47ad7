-- ===== src/Cleanup/RoundTrip.antt =====
-- What is printed is read as it was.

use osclientcerts.Prelude.{
  All-join, ◌≡◌, refl, Bool, true, false, none, List, [], ◌∷◌, ◌++◌, All, map,
}
use osclientcerts.Text.{Text, is_whitespace, trim_end, lines}
use osclientcerts.Cleanup.Profiles.{
  push_current, parse, install, profile, default_key, path_key, is_relative_key,
}
use osclientcerts.Cleanup.Printed.{
  Entry, installed, profiled, general, print_bool, general_name, version, print_header, print_entry,
  print_entries, section_of, IsPrintable,
}
use osclientcerts.Text.Lines.{
  Eol, unlines, HasNoFeed, is_solid, is_solid-HasNoFeed, trim_end-append, trim_end-snoc,
  lines-end_line,
}
use osclientcerts.Cleanup.Entries.{print_bool-end, read_lines-print_entries}

-- Each line that is printed can be told apart from the next.
abbrev IsLine : Text → Type 0
IsLine l = HasNoFeed l × (trim_end l ≡ l)

print_header-IsLine : (name : Text) → HasNoFeed name → IsLine (print_header name)
unfolding is_whitespace
print_header-IsLine name h =
    ((refl, All-join _ name (b']' ∷ []) h (refl, tt)), trim_end-snoc (b'[' ∷ name) b']' refl)

-- A key, or the start of a name, has no white space.
append-IsLine : (key value : Text) → is_solid key ≡ true → IsLine value → IsLine (key ++ value)
append-IsLine key value solid (feed, end) =
    (All-join _ key value (is_solid-HasNoFeed key solid) feed, trim_end-append key value solid end)

named-IsLine :
    (start suffix : Text)
    → is_solid start ≡ true
    → HasNoFeed suffix
    → IsLine (print_header (start ++ suffix))
named-IsLine start suffix solid h =
    print_header-IsLine (start ++ suffix)
      (All-join _ start suffix (is_solid-HasNoFeed start solid) h)

print_bool-IsLine : (b : Bool) → IsLine (print_bool b)
unfolding print_bool
print_bool-IsLine true = ((refl, tt), print_bool-end true)
print_bool-IsLine false = ((refl, tt), print_bool-end false)

print_entry-IsLine : (e : Entry) → IsPrintable e → All IsLine (print_entry e)
unfolding print_entry is_solid is_whitespace trim_end
print_entry-IsLine (installed suffix path) (h, plain) = (
  named-IsLine install suffix refl h,
  (append-IsLine default_key path refl (plain.no_feed, plain.end), tt),
)
print_entry-IsLine (profiled suffix path relative default) (h, plain) = (
  named-IsLine profile suffix refl h,
  (
    append-IsLine path_key path refl (plain.no_feed, plain.end),
    (
      append-IsLine is_relative_key (print_bool relative) refl (print_bool-IsLine relative),
      (append-IsLine default_key (print_bool default) refl (print_bool-IsLine default), tt),
    ),
  ),
)
print_entry-IsLine general h =
    (named-IsLine general_name [] refl tt, (append-IsLine version [] refl (tt, refl), tt))

print_entries-IsLine : (es : List Entry) → All IsPrintable es → All IsLine (print_entries es)
unfolding print_entries
print_entries-IsLine [] h = tt
print_entries-IsLine (e ∷ es) (h, hs) =
    All-join _ (print_entry e) _ (print_entry-IsLine e h) (print_entries-IsLine es hs)

lines-unlines : (eol : Eol) (ls : List Text) → All IsLine ls → lines (unlines eol ls) ≡ ls
unfolding unlines lines
lines-unlines eol [] h = refl
lines-unlines eol (l ∷ ls) ((feed, end), hs) =
    rw (lines-end_line eol l (unlines eol ls) feed end, lines-unlines eol ls hs) refl

-- Entries whose names and paths are plain, printed with either end of line, are read as their
-- sections.
pub parse-print_entries :
    (eol : Eol) (es : List Entry)
    → All IsPrintable es
    → parse (unlines eol (print_entries es)) ≡ map section_of es
unfolding parse push_current
parse-print_entries eol es h =
    rw (lines-unlines eol (print_entries es) (print_entries-IsLine es h))
      (read_lines-print_entries es [] none h)
