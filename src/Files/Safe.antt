-- ===== src/Files/Safe.antt =====
-- The actions on the repository's files end without a panic.
use dqrvcs.Prelude.{Option, is_empty}
use dqrvcs.Text.{Text}
use dqrvcs.Text.Trim.{trim}
use dqrvcs.Paths.{FilePath}
use dqrvcs.Act.{Act}
use dqrvcs.Act.Safe.{
  Safe, safe_rules, Safe-bind, Safe-if, Safe-option, Safe-result, Safe-call_or_panic, Unless,
}
use dqrvcs.System.{System}
use dqrvcs.Git.Safe.{Safe-run_git, Safe-resolve_git_path}
use dqrvcs.Files.{
  resolve_repo_relative_path, load_conflict_editor_state, try_todo_path,
  find_current_rebase_todo_path, build_rebase_todo_text, active_todo_path, read_current_rebase_todo,
  write_current_rebase_todo, write_temp_rebase_todo, write_sequence_editor_script,
}

module _ (S : System) {C : Type 0} where
  pub Safe-resolve_repo_relative_path :
      (repo : FilePath) (path : Text) → Safe C (resolve_repo_relative_path S repo path)
  unfolding resolve_repo_relative_path
  Safe-resolve_repo_relative_path repo path =
      Safe-if (is_empty (trim path)) _ _ (search safe_rules) (
        Safe-bind _ _ (search safe_rules) (λ repo_found.
          Safe-bind _ _ (search safe_rules) (λ found.
            Safe-result found _ _ (λ inside. search safe_rules) (λ e. search safe_rules))))

  pub Safe-load_conflict_editor_state :
      (repo : FilePath) (path : Text) → Safe C (load_conflict_editor_state S repo path)
  unfolding load_conflict_editor_state
  Safe-load_conflict_editor_state repo path =
      search (safe_rules, Safe-resolve_repo_relative_path) depth 12

  Safe-try_todo_path :
      (repo : FilePath) (candidate : Text) (otherwise : Act S.World (Option FilePath))
      → Safe C otherwise
      → Safe C (try_todo_path S repo candidate otherwise)
  unfolding try_todo_path
  Safe-try_todo_path repo candidate otherwise h =
      Safe-bind _ _ (Safe-resolve_git_path S repo candidate)
        (λ resolved. Safe-option resolved _ _ h (λ path. search safe_rules))

  Safe-active_todo_path : (repo : FilePath) → Safe C (active_todo_path S repo)
  unfolding find_current_rebase_todo_path
  Safe-active_todo_path repo =
      Safe-bind _ _ (search (safe_rules, Safe-try_todo_path) depth 9)
        (λ found. Safe-option found _ _ (search safe_rules) (λ path. search safe_rules))

  pub Safe-build_rebase_todo_text :
      (repo : FilePath) (onto : Text) → Safe C (build_rebase_todo_text S repo onto)
  unfolding build_rebase_todo_text
  Safe-build_rebase_todo_text repo onto = search (safe_rules, Safe-run_git) depth 12

  pub Safe-read_current_rebase_todo : (repo : FilePath) → Safe C (read_current_rebase_todo S repo)
  unfolding read_current_rebase_todo
  Safe-read_current_rebase_todo repo =
      Safe-bind _ _ (Safe-active_todo_path repo) (λ path. search safe_rules)

  pub Safe-write_current_rebase_todo :
      (repo : FilePath) (todo : Text) → Safe C (write_current_rebase_todo S repo todo)
  unfolding write_current_rebase_todo
  Safe-write_current_rebase_todo repo todo =
      Safe-bind _ _ (Safe-active_todo_path repo) (λ path. search safe_rules)

  pub Safe-write_temp_rebase_todo :
      ((w : S.World) → Unless C (S.timestamp_nanos w))
      → (todo : Text) → Safe C (write_temp_rebase_todo S todo)
  unfolding write_temp_rebase_todo
  Safe-write_temp_rebase_todo nanos todo =
      Safe-bind _ _ (search safe_rules)
        (λ dir. Safe-bind _ _ (Safe-call_or_panic _ nanos) (λ text. search safe_rules depth 9))

  pub Safe-write_sequence_editor_script :
      (repo : FilePath) → Safe C (write_sequence_editor_script S repo)
  unfolding write_sequence_editor_script
  Safe-write_sequence_editor_script repo = search safe_rules depth 12
