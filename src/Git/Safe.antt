-- ===== src/Git/Safe.antt =====
-- The queries of git end without a panic but for the cut of a status row.
use dqrvcs.Prelude.{Bool, List, [], ◌∷◌, ◌≡◌, some, ok}
use dqrvcs.Text.{Text}
use dqrvcs.Text.Trim.{is_blank}
use dqrvcs.Paths.{FilePath}
use dqrvcs.Act.Safe.{
  Safe-option, Safe-result, Unless, Safe, safe_rules, Safe-if, Safe-bind, Safe-bind_value,
  Safe-expect,
}
use dqrvcs.System.{System}
use dqrvcs.Status.{parse_status_entries, status_lines}
use dqrvcs.Git.{
  run_git, resolve_git_path, git_path_exists, load_diff_output, load_branch, load_branch_graph,
  load_recent_commits, load_rebase_in_progress, load_repo_data, words,
}

-- Whatever git answers to `git status`, its rows are cut or `C` holds.
abbrev pub RowsCut : System → Type 0 → Type 0
RowsCut S C =
    (repo : FilePath) (w w' : S.World) (raw : Text)
    → run_git S repo (words ("status" ∷ "--short" ∷ [])) w ≡ some (ok raw, w')
    → Unless C (parse_status_entries (status_lines raw))

module _ (S : System) {C : Type 0} where
  pub Safe-run_git : (repo : FilePath) (args : List Text) → Safe C (run_git S repo args)
  unfolding run_git
  Safe-run_git repo args = search safe_rules

  pub Safe-resolve_git_path :
      (repo : FilePath) (name : Text) → Safe C (resolve_git_path S repo name)
  unfolding resolve_git_path
  Safe-resolve_git_path repo name = search (safe_rules, Safe-run_git)

  pub Safe-git_path_exists : (repo : FilePath) (name : Text) → Safe C (git_path_exists S repo name)
  unfolding git_path_exists
  Safe-git_path_exists repo name =
      Safe-bind _ _ (Safe-resolve_git_path repo name)
        (λ resolved. Safe-option resolved _ _ (search safe_rules) (λ path. search safe_rules))

  pub Safe-load_diff_output :
      (repo : FilePath) (path : Text) (staged : Bool) → Safe C (load_diff_output S repo path staged)
  unfolding load_diff_output
  Safe-load_diff_output repo path staged = search (safe_rules, Safe-run_git)

  Safe-load_branch : (repo : FilePath) → Safe C (load_branch S repo)
  unfolding load_branch
  Safe-load_branch repo = Safe-bind _ _ (search (safe_rules, Safe-run_git)) (λ symbolic.
      Safe-result symbolic _ _ (λ name. search safe_rules) (λ e. search (safe_rules, Safe-run_git)))

  Safe-load_branch_graph : (repo : FilePath) (head : Text) → Safe C (load_branch_graph S repo head)
  unfolding load_branch_graph
  Safe-load_branch_graph repo head = Safe-if (is_blank head) _ _ (search safe_rules) (
      Safe-bind _ _ (search (safe_rules, Safe-run_git))
        (λ graph. Safe-result graph _ _ (λ text. search safe_rules) (λ e. search safe_rules)))

  Safe-load_recent_commits :
      (repo : FilePath) (head : Text) → Safe C (load_recent_commits S repo head)
  unfolding load_recent_commits
  Safe-load_recent_commits repo head = search (safe_rules, Safe-run_git)

  Safe-load_rebase_in_progress : (repo : FilePath) → Safe C (load_rebase_in_progress S repo)
  unfolding load_rebase_in_progress
  Safe-load_rebase_in_progress repo = search (safe_rules, Safe-git_path_exists)

  pub Safe-load_repo_data : RowsCut S C → (repo : FilePath) → Safe C (load_repo_data S repo)
  unfolding load_repo_data
  Safe-load_repo_data cut repo = Safe-bind _ _ (Safe-load_branch repo) (λ branch.
      Safe-bind _ _ (search (safe_rules, Safe-run_git)) (λ head_raw.
        Safe-bind_value _ _ (Safe-run_git repo _) (λ raw w w' e.
          Safe-bind _ _ (Safe-expect _ (cut repo w w' raw e)) (λ entries.
            search
              (
                safe_rules, Safe-run_git, Safe-load_branch_graph, Safe-load_rebase_in_progress,
                Safe-load_recent_commits,
              )
              depth 30 fits 9000))))
