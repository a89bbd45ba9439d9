-- ===== src/Todo.antt =====
-- `validate_rebase_todo_text` of gui/src/main.rs.
pub mod Lines
use dqrvcs.Prelude.{
  ℕ, zero, suc, ◌+◌, Bool, true, false, not, ◌&&◌, ◌||◌, List, [], ◌∷◌, ◌++◌, ◌==◌, if◌then◌else◌,
  is_empty, Option, none, some, some_or, Result, ok, err,
}
use dqrvcs.Text.{Text, codes, starts_with, contains}
use dqrvcs.Text.Trim.{trim}
use dqrvcs.Text.Split.{split_whitespace, lines}
use dqrvcs.Text.Bytes.{show_nat}

abbrev pub first : List Text → Option Text
first [] = none
first (t ∷ ts) = some t

unfoldable pub allowed : List Text
allowed =
    codes "pick"
    ∷ codes "reword"
    ∷ codes "edit"
    ∷ codes "squash"
    ∷ codes "fixup"
    ∷ codes "drop"
    ∷ codes "break"
    ∷ codes "exec"
    ∷ codes "label"
    ∷ codes "reset"
    ∷ codes "merge"
    ∷ codes "noop"
    ∷ []

-- `trimmed.is_empty() || trimmed.starts_with('#')`
unfoldable pub is_skipped : Text → Bool
is_skipped line = let trimmed = trim line in is_empty trimmed || starts_with trimmed (codes "#")

-- `trimmed.split_whitespace().next().unwrap_or_default()`
unfoldable pub command_of : Text → Text
command_of line = some_or (first (split_whitespace (trim line))) []

-- The loop over the lines from `idx` on, and the test that follows it.
unfoldable pub validate_from : ℕ → ℕ → List Text → Result (Unit {0})
unfolding is_skipped command_of allowed
validate_from idx action_lines [] =
    if action_lines == 0 then err (codes "Rebase todo is empty") else ok tt
validate_from idx action_lines (line ∷ rest) =
    let skip = validate_from (idx + 1) action_lines rest in
    let next = validate_from (idx + 1) (action_lines + 1) rest in
    if is_skipped line
    then skip
    else if not (contains allowed (command_of line))
    then err (
        codes "Invalid rebase todo command on line "
        ++ (show_nat (idx + 1) ++ (codes ": " ++ command_of line)))
    else next

unfoldable pub validate_rebase_todo_text : Text → Result (Unit {0})
unfolding validate_from lines
validate_rebase_todo_text todo = validate_from 0 0 (lines todo)
