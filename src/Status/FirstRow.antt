-- ===== src/Status/FirstRow.antt =====
-- The first row of `git status --short` on its way from `run_git` to `parse_status_entries`
-- (gui/src/main.rs): `run_git` hands over its output trimmed.
use dqrvcs.Prelude.{
  ℕ, false, not, [], ◌∷◌, ◌++◌, ◌≡◌, refl, ap, ◌∙◌, arith, is_empty, some, map, retain, ok,
}
use dqrvcs.Text.{Text, is_whitespace}
use dqrvcs.Text.Trim.{
  trim, trim_end, trim_end-trim, trim_end-cons, trim_start-cons_blank, trim-trim_end,
  trim_end-blank,
}
use dqrvcs.Text.Split.{lines, strip_newline}
use dqrvcs.Text.Lines.{Free, is_newline, split_inclusive_last, strip_newline_last}
use dqrvcs.Status.{status_lines, parse_status_entries, push_entry}
use dqrvcs.Paths.{FilePath}
use dqrvcs.System.{System}
use dqrvcs.Git.{RepoData, load_repo_data}
use dqrvcs.Git.Loads.{StatusPrints, load_repo_data-entries}
use dqrvcs.Status.Rows.{IsAscii, IsBare, entry_of_bare, parse_status_line-cut}

-- A row of output that trimming leaves alone is the only status line.
one_row :
    (row : Text)
    → Free is_newline row
    → is_empty row ≡ false
    → trim_end row ≡ row
    → status_lines row ≡ row ∷ []
unfolding status_lines lines retain
one_row row line filled kept =
    ap (λ ls. retain (λ l. not (is_empty l)) (map trim_end (map strip_newline ls)))
      (split_inclusive_last row line filled)
    ∙ ap (λ l. retain (λ l. not (is_empty l)) (trim_end l ∷ [])) (strip_newline_last row line)
    ∙ rw (kept, filled)

-- The row " y path" for an unstaged change, with its newline, as `run_git` returns it.
trimmed_row :
    (y c : ℕ) (q : Text)
    → is_whitespace y ≡ false
    → is_empty q ≡ false
    → trim q ≡ q
    → trim (b' ' ∷ y ∷ b' ' ∷ c ∷ (q ++ b'\n' ∷ [])) ≡ y ∷ b' ' ∷ c ∷ q
unfolding is_whitespace
trimmed_row y c q solid filled trimmed =
    trim_start-cons_blank b' ' _ refl
    ∙ trim-trim_end (y ∷ b' ' ∷ c ∷ (q ++ b'\n' ∷ [])) solid
    ∙ trim_end-blank (y ∷ b' ' ∷ c ∷ q) b'\n' refl
    ∙ trim_end-cons y _
        (trim_end-cons b' ' _ (trim_end-cons c q (rw trimmed at (trim_end-trim q)) filled) refl)
        refl

-- Trimmed, the row is read with the code in front of the blank, and the path without its first
-- character.
first_row_read :
    (y c : ℕ) (q : Text)
    → IsAscii y
    → IsAscii c
    → is_whitespace y ≡ false
    → Free is_newline (y ∷ c ∷ q)
    → IsBare q
    → parse_status_entries (status_lines (trim (b' ' ∷ y ∷ b' ' ∷ c ∷ (q ++ b'\n' ∷ []))))
      ≡ some (record { code = y ∷ b' ' ∷ []; path = q } ∷ [])
unfolding parse_status_entries
first_row_read y c q ya ca solid line bare =
    let row = trimmed_row y c q solid bare.filled bare.solid in
    let kept : trim_end (y ∷ b' ' ∷ c ∷ q) ≡ y ∷ b' ' ∷ c ∷ q =
      rw row at (trim_end-trim (b' ' ∷ y ∷ b' ' ∷ c ∷ (q ++ b'\n' ∷ []))) in
    ap (λ t. parse_status_entries (status_lines t)) row
    ∙ ap parse_status_entries (one_row (y ∷ b' ' ∷ c ∷ q) (line.0, (refl, line.1)) refl kept)
    ∙ ap (λ e. push_entry e (some []))
        (parse_status_line-cut y b' ' c q ya (omega arith) ca bare.filled bare.solid
          ∙ ap some (entry_of_bare (y ∷ b' ' ∷ []) q bare))

-- Where `git status` succeeds in every world and prints one unstaged row (a blank, an ASCII
-- character that is not white space, a blank, and a path of an ASCII character and a bare rest,
-- with no newline in them), `load_repo_data` returns data with one entry: its code is that
-- character in front of a blank, as for a staged change, and its path lacks its first character.
pub first_row_shifted :
    (S : System) (repo : FilePath) (w : S.World) (y c : ℕ) (q : Text)
    → StatusPrints S repo (b' ' ∷ y ∷ b' ' ∷ c ∷ (q ++ b'\n' ∷ []))
    → IsAscii y
    → IsAscii c
    → is_whitespace y ≡ false
    → Free is_newline (y ∷ c ∷ q)
    → IsBare q
    → (repo_data : RepoData) × (w' : S.World) × (load_repo_data S repo w ≡ some (ok repo_data, w'))
      × (repo_data.status_entries ≡ record { code = y ∷ b' ' ∷ []; path = q } ∷ [])
first_row_shifted S repo w y c q prints ya ca solid line bare =
    (load_repo_data-entries S repo _ _ prints (first_row_read y c q ya ca solid line bare)).at w
