-- ===== src/History.antt =====
-- `git log` and `git reflog` rows as gui/src/main.rs reads them: `parse_recent_commits` and
-- `parse_reflog_entries`.
pub mod RoundTrip
use dqrvcs.Prelude.{
  ℕ, Bool, List, [], ◌∷◌, ◌==◌, if◌then◌else◌, is_empty, Option, none, some, some_or,
}
use dqrvcs.Text.{Text}
use dqrvcs.Text.Trim.{trim}
use dqrvcs.Text.Split.{split_by, lines}

pub record CommitSummary : Type 0 where
  pub hash : Text
  pub short_hash : Text
  pub author : Text
  pub date : Text
  pub subject : Text

pub record ReflogEntry : Type 0 where
  pub short_hash : Text
  pub selector : Text
  pub subject : Text
  pub date : Text

-- The separator `\u{1f}` between the fields of a row.
abbrev pub is_unit : ℕ → Bool
is_unit c = c == 0x1f

-- The last field: `parts.next().unwrap_or("").trim()`.
abbrev pub next_or_empty : List Text → Text
next_or_empty [] = trim []
next_or_empty (t ∷ ts) = trim t

unfoldable pub commit_of : List Text → Option CommitSummary
commit_of (hash ∷ short_hash ∷ author ∷ date ∷ rest) =
    if is_empty (trim hash)
    then none
    else some (record {
      hash = trim hash;
      short_hash = trim short_hash;
      author = trim author;
      date = trim date;
      subject = next_or_empty rest;
    })
commit_of _ = none

unfoldable pub reflog_of : List Text → Option ReflogEntry
reflog_of (short_hash ∷ selector ∷ subject ∷ rest) =
    if is_empty (trim selector)
    then none
    else some (record {
      short_hash = trim short_hash;
      selector = trim selector;
      subject = trim subject;
      date = next_or_empty rest;
    })
reflog_of _ = none

-- `filter_map(row).collect()`
abbrev pub collect : {A : Type 0} → (List Text → Option A) → List Text → List A
collect row [] = []
collect row (line ∷ rest) = elim (row (split_by is_unit line)) [
  | none ↦ collect row rest
  | some a ↦ a ∷ collect row rest
]

unfoldable pub parse_recent_commits : Text → List CommitSummary
parse_recent_commits raw = collect commit_of (lines raw)

unfoldable pub parse_reflog_entries : Text → List ReflogEntry
parse_reflog_entries raw = collect reflog_of (lines raw)
