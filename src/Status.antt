-- ===== src/Status.antt =====
-- `git status --short` as gui/src/main.rs reads it: `StatusEntry`, `normalize_status_path`,
-- `parse_status_entries`, and the first lines of `load_repo_data`, which make the status lines.
pub mod Rows
pub mod FirstRow
pub mod Ascii
use dqrvcs.Prelude.{
  ℕ, suc, ◌-◌, Bool, true, false, not, ◌&&◌, List, [], ◌∷◌, ltb, leb, if◌then◌else◌, is_empty,
  retain, map, Option, none, some, some_or, length, take,
}
use dqrvcs.Text.{Text, codes, byte_len, utf8_width, starts_with}
use dqrvcs.Text.Trim.{trim, trim_end}
use dqrvcs.Text.Split.{split_str, lines}
use dqrvcs.Text.Bytes.{split_at_byte}

pub record StatusEntry : Type 0 where
  pub code : Text
  pub path : Text

-- `Iterator::last`
abbrev pub last : List Text → Option Text
last [] = none
last (t ∷ []) = some t
last (t ∷ u ∷ ts) = last (u ∷ ts)

-- `ends_with('"')`
unfoldable pub ends_with_quote : Text → Bool
ends_with_quote [] = false
ends_with_quote (c ∷ []) = starts_with (c ∷ []) (codes "\"")
ends_with_quote (c ∷ d ∷ s) = ends_with_quote (d ∷ s)

abbrev pub drop_last : Text → Text
drop_last [] = []
drop_last (d ∷ []) = []
drop_last (d ∷ e ∷ r) = d ∷ drop_last (e ∷ r)

-- `[1..len - 1]` of a text that is more than one byte long and has a quote at either end.
abbrev pub unquote : Text → Text
unquote [] = []
unquote (c ∷ s) = drop_last s

unfoldable pub normalize_status_path : Text → Text
normalize_status_path value =
    let target = trim (some_or (last (split_str (codes " -> ") 0 value)) value) in
    if starts_with target (codes "\"") && ends_with_quote target && leb 2 (byte_len target)
    then unquote target
    else target

-- What one line gives: an entry, nothing, or a panic (the outer `none`) where a byte offset falls
-- inside a character.
unfoldable pub parse_status_line : Text → Option (Option StatusEntry)
parse_status_line line =
    let trimmed = trim_end line in
    if ltb (byte_len trimmed) 3 then some none else elim (split_at_byte 2 trimmed) [
      | none ↦ none
      | some (code, _) ↦ elim (split_at_byte 3 trimmed) [
        | none ↦ none
        | some (_, raw_path) ↦
            let path = normalize_status_path (trim raw_path) in
            if is_empty path then some none else some (some (record { code = code; path = path }))
      ]
    ]

abbrev pub push_entry :
    Option (Option StatusEntry) → Option (List StatusEntry) → Option (List StatusEntry)
push_entry none rest = none
push_entry (some e) none = none
push_entry (some none) (some rest) = some rest
push_entry (some (some e)) (some rest) = some (e ∷ rest)

unfoldable pub parse_status_entries : List Text → Option (List StatusEntry)
parse_status_entries [] = some []
parse_status_entries (line ∷ rest) = push_entry (parse_status_line line) (parse_status_entries rest)

-- `status_raw.lines().map(trim_end).filter(non-empty)`
unfoldable pub status_lines : Text → List Text
status_lines status_raw = retain (λ line. not (is_empty line)) (map trim_end (lines status_raw))
