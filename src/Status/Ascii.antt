-- ===== src/Status/Ascii.antt =====
-- `git status` in ASCII, as git prints it unless `core.quotePath` is off: `parse_status_entries`
-- (gui/src/main.rs) then cuts no row inside a character.
use dqrvcs.Prelude.{
  ℕ, Bool, true, false, List, [], ◌∷◌, ◌≡◌, refl, All, is_empty, map, retain, if◌then◌else◌, Option,
  none, some, ltb, ◌==◌, ap₂, ◌∙◌,
}
use dqrvcs.Text.{Text, byte_len, is_whitespace}
use dqrvcs.Text.Trim.{trim, trim_start, trim_end, keep_end}
use dqrvcs.Text.Split.{cons_first, split_inclusive, strip_newline, lines}
use dqrvcs.Status.{
  StatusEntry, push_entry, normalize_status_path, parse_status_line, parse_status_entries,
  status_lines,
}
use dqrvcs.Status.Rows.{
  IsAscii, entry_unless_empty, utf8_width_ascii, split_two, split_three, long_enough, some_if,
}

abbrev pub AllAscii : Text → Type 0
AllAscii = All IsAscii

if-ascii : (b : Bool) (s t : Text) → AllAscii s → AllAscii t → AllAscii (if b then s else t)
if-ascii true s t hs ht = hs
if-ascii false s t hs ht = ht

keep_end-ascii : (c : ℕ) (s : Text) → IsAscii c → AllAscii s → AllAscii (keep_end c s)
keep_end-ascii c [] hc hs = if-ascii _ [] (c ∷ []) tt (hc, tt)
keep_end-ascii c (d ∷ s) hc hs = (hc, hs)

trim_end-ascii : (s : Text) → AllAscii s → AllAscii (trim_end s)
unfolding trim_end
trim_end-ascii [] h = tt
trim_end-ascii (c ∷ s) h = keep_end-ascii c (trim_end s) h.0 (trim_end-ascii s h.1)

trim_start-ascii : (s : Text) → AllAscii s → AllAscii (trim_start s)
unfolding trim_start
trim_start-ascii [] h = tt
trim_start-ascii (c ∷ s) h =
    if-ascii (is_whitespace c) (trim_start s) (c ∷ s) (trim_start-ascii s h.1) h

pub trim-ascii : (s : Text) → AllAscii s → AllAscii (trim s)
unfolding trim
trim-ascii s h = trim_end-ascii (trim_start s) (trim_start-ascii s h)

if-each_ascii :
    (b : Bool) (ss ts : List Text)
    → All AllAscii ss
    → All AllAscii ts
    → All AllAscii (if b then ss else ts)
if-each_ascii true ss ts hs ht = hs
if-each_ascii false ss ts hs ht = ht

cons_first-ascii :
    (c : ℕ) (ls : List Text) → IsAscii c → All AllAscii ls → All AllAscii (cons_first c ls)
cons_first-ascii c [] hc h = ((hc, tt), tt)
cons_first-ascii c (l ∷ ls) hc h = ((hc, h.0), h.1)

split_inclusive-ascii : (s : Text) → AllAscii s → All AllAscii (split_inclusive s)
unfolding split_inclusive
split_inclusive-ascii [] h = tt
split_inclusive-ascii (c ∷ s) h =
    let rest = split_inclusive-ascii s h.1 in
    if-each_ascii (c == b'\n') ((c ∷ []) ∷ split_inclusive s) (cons_first c (split_inclusive s))
      ((h.0, tt), rest) (cons_first-ascii c (split_inclusive s) h.0 rest)

strip_newline-ascii : (s : Text) → AllAscii s → AllAscii (strip_newline s)
strip_newline-ascii [] h = tt
strip_newline-ascii (c ∷ []) h = if-ascii _ [] (c ∷ []) tt h
strip_newline-ascii (c ∷ d ∷ []) h =
    if-ascii (d == b'\n') (if c == b'\r' then [] else c ∷ []) (c ∷ d ∷ [])
      (if-ascii (c == b'\r') [] (c ∷ []) tt (h.0, tt)) h
strip_newline-ascii (c ∷ d ∷ e ∷ s) h = (h.0, strip_newline-ascii (d ∷ e ∷ s) h.1)

map-ascii :
    (f : Text → Text) (ls : List Text)
    → ((s : Text) → AllAscii s → AllAscii (f s))
    → All AllAscii ls
    → All AllAscii (map f ls)
map-ascii f [] hf h = tt
map-ascii f (l ∷ ls) hf h = (hf l h.0, map-ascii f ls hf h.1)

retain-ascii : (p : Text → Bool) (ls : List Text) → All AllAscii ls → All AllAscii (retain p ls)
unfolding retain
retain-ascii p [] h = tt
retain-ascii p (l ∷ ls) h =
    let rest = retain-ascii p ls h.1 in
    if-each_ascii (p l) (l ∷ retain p ls) (retain p ls) (h.0, rest) rest

status_lines-ascii : (raw : Text) → AllAscii raw → All AllAscii (status_lines raw)
unfolding status_lines lines
status_lines-ascii raw h = retain-ascii _ _ (
    map-ascii trim_end _ trim_end-ascii
      (map-ascii strip_newline _ strip_newline-ascii (split_inclusive-ascii raw h)))

-- A row by its characters: two of code, one that is passed over, and the path.
abbrev pub entry_of_row : Text → Option StatusEntry
entry_of_row (a ∷ b ∷ c ∷ s) = entry_unless_empty (a ∷ b ∷ []) (normalize_status_path (trim s))
entry_of_row _ = none

-- The entries of rows, without the rows that are too short or name no path.
abbrev pub entries_of : List Text → List StatusEntry
entries_of [] = []
entries_of (line ∷ rest) = elim (entry_of_row (trim_end line)) [
  | none ↦ entries_of rest
  | some e ↦ e ∷ entries_of rest
]

short_row :
    (line t : Text)
    → trim_end line ≡ t
    → ltb (byte_len t) 3 ≡ true
    → parse_status_line line ≡ some none
unfolding parse_status_line
short_row line t e short = rw (parse_status_line, e, short) refl

ascii_row :
    (line t : Text)
    → trim_end line ≡ t
    → AllAscii t
    → parse_status_line line ≡ some (entry_of_row t)
unfolding parse_status_line byte_len
ascii_row line [] e h = short_row line [] e refl
ascii_row line (a ∷ []) e h = short_row line (a ∷ []) e (rw (utf8_width_ascii a h.0) refl)
ascii_row line (a ∷ b ∷ []) e h =
    short_row line (a ∷ b ∷ []) e (rw (utf8_width_ascii a h.0, utf8_width_ascii b h.1.0) refl)
ascii_row line (a ∷ b ∷ c ∷ s) e h =
    rw
      (
        parse_status_line,
        e,
        long_enough a b c s,
        split_two a b (c ∷ s) h.0 h.1.0,
        e,
        split_three a b c s h.0 h.1.0 h.1.1.0,
      )
      (some_if (is_empty (normalize_status_path (trim s))) _)

push_some :
    (e : Option StatusEntry) (rest : List StatusEntry)
    → push_entry (some e) (some rest) ≡ some (elim e [ none ↦ rest | some entry ↦ entry ∷ rest ])
push_some none rest = refl
push_some (some entry) rest = refl

ascii_rows : (ls : List Text) → All AllAscii ls → parse_status_entries ls ≡ some (entries_of ls)
unfolding parse_status_entries
ascii_rows [] h = refl
ascii_rows (l ∷ ls) h =
    ap₂ push_entry (ascii_row l (trim_end l) refl (trim_end-ascii l h.0)) (ascii_rows ls h.1)
    ∙ push_some (entry_of_row (trim_end l)) (entries_of ls)

-- From an output in ASCII the entries are read without a panic, and they are those of the rows by
-- their characters, in order: of each row of three characters or more the first two as the code and
-- what follows the third, normalised, as the path, unless that path is empty.
pub parse_status_entries-ascii :
    (raw : Text)
    → AllAscii raw
    → parse_status_entries (status_lines raw) ≡ some (entries_of (status_lines raw))
parse_status_entries-ascii raw h = ascii_rows (status_lines raw) (status_lines-ascii raw h)
