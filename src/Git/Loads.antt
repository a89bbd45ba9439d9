-- ===== src/Git/Loads.antt =====
-- `load_repo_data` of gui/src/main.rs returns its data wherever `git status` succeeds and its rows are
-- not cut: every other answer of git has a value to stand for it.
use dqrvcs.Prelude.{List, [], ◌∷◌, ◌≡◌, refl, some, ok, true, ok_or, is_empty}
use dqrvcs.Text.{Text, codes}
use dqrvcs.Text.Trim.{trim, is_blank}
use dqrvcs.Paths.{FilePath, is_absolute}
use dqrvcs.Status.{StatusEntry, parse_status_entries, status_lines}
use dqrvcs.Status.Ascii.{AllAscii, entries_of, trim-ascii, parse_status_entries-ascii}
use dqrvcs.System.{System, Output}
use dqrvcs.Act.{attempt, try_call, map_err, lift, then_do, ◌>>=◌}
use dqrvcs.Act.Yields.{
  Yields, Any, Yields-ret, Yields-call, Yields-expect, Yields-attempt, Yields-if, Yields-bind,
  Yields-option, Yields-result,
}
use dqrvcs.Git.{
  RepoData, words, git_result, run_git, resolve_git_path, git_path_exists, load_branch,
  load_branch_graph, load_recent_commits, load_rebase_in_progress, load_repo_data,
}
use dqrvcs.Git.Safe.{Safe-run_git}

-- In every world, `git status --short` succeeds and prints this text.
pub record StatusPrints (S : System) (repo : FilePath) (text : Text) : Type 0 where
  pub at :
      (w : S.World)
      → (output : Output) × (w' : S.World) × (S.process_output
            (codes "git")
            (codes "-C" ∷ repo ∷ words ("status" ∷ "--short" ∷ []))
            w
          ≡ (ok output, w'))
        × (output.success ≡ true)
        × (output.stdout ≡ text)

module _ (S : System) (repo : FilePath) where
  Yields-query : (args : List Text) → Yields Any (attempt (run_git S repo args))
  Yields-query args = Yields-attempt _ (Safe-run_git S repo args)

  Yields-status :
      (text : Text)
      → StatusPrints S repo text
      → Yields (λ raw. raw ≡ trim text) (run_git S repo (words ("status" ∷ "--short" ∷ [])))
  unfolding run_git git_result map_err try_call lift ◌>>=◌ then_do
  Yields-status text prints = record {
    at = λ w.
        let (output, w', e, worked, printed) = prints.at w in
        (trim text, w', rw (run_git, ◌>>=◌, map_err, try_call, e, worked, printed) refl, refl);
  }

  Yields-resolve_git_path : (name : Text) → Yields Any (resolve_git_path S repo name)
  unfolding resolve_git_path
  Yields-resolve_git_path name = Yields-bind _ _ (Yields-query _) (λ answer _.
      let git_path = trim (ok_or answer []) in
      Yields-if (is_empty git_path) _ _ (Yields-ret _ tt)
        (Yields-if (is_absolute git_path) _ _ (Yields-ret _ tt) (Yields-ret _ tt)))

  Yields-git_path_exists : (name : Text) → Yields Any (git_path_exists S repo name)
  unfolding git_path_exists
  Yields-git_path_exists name = Yields-bind _ _ (Yields-resolve_git_path name) (λ resolved _.
      Yields-option resolved _ _ (Yields-ret _ tt) (λ path. Yields-call (S.exists path)))

  Yields-load_branch : Yields Any (load_branch S repo)
  unfolding load_branch
  Yields-load_branch = Yields-bind _ _ (Yields-query _) (λ symbolic _.
      Yields-result symbolic _ _ (λ name. Yields-ret _ tt)
        (λ e. Yields-bind _ _ (Yields-query _) (λ abbreviated _. Yields-ret _ tt)))

  Yields-load_branch_graph : (head : Text) → Yields Any (load_branch_graph S repo head)
  unfolding load_branch_graph
  Yields-load_branch_graph head = Yields-if (is_blank head) _ _ (Yields-ret _ tt) (
      Yields-bind _ _ (Yields-query _)
        (λ graph _. Yields-result graph _ _ (λ text. Yields-ret _ tt) (λ e. Yields-ret _ tt)))

  Yields-load_recent_commits : (head : Text) → Yields Any (load_recent_commits S repo head)
  unfolding load_recent_commits
  Yields-load_recent_commits head =
      Yields-if (is_blank head) _ _ (Yields-ret _ tt)
        (Yields-bind _ _ (Yields-query _) (λ raw _. Yields-ret _ tt))

  Yields-load_rebase_in_progress : Yields Any (load_rebase_in_progress S repo)
  unfolding load_rebase_in_progress
  Yields-load_rebase_in_progress =
      Yields-bind _ _ (Yields-git_path_exists _)
        (λ merging _. Yields-if merging _ _ (Yields-ret _ tt) (Yields-git_path_exists _))

  -- The data are loaded, with the entries that the trimmed output of `git status` parses to.
  pub load_repo_data-entries :
      (text : Text) (entries : List StatusEntry)
      → StatusPrints S repo text
      → parse_status_entries (status_lines (trim text)) ≡ some entries
      → Yields (λ repo_data. repo_data.status_entries ≡ entries) (load_repo_data S repo)
  unfolding load_repo_data
  load_repo_data-entries text entries prints parsed =
      Yields-bind _ _ Yields-load_branch (λ branch _.
        Yields-bind _ _ (Yields-query _) (λ head_raw _.
          Yields-bind _ _ (Yields-status text prints) (λ raw is_text.
            Yields-bind _ _
              (Yields-expect {Q = λ es. es ≡ entries} _ entries (rw is_text parsed) refl)
              (λ es are_entries. Yields-bind _ _ (Yields-load_branch_graph _) (λ graph _.
                Yields-bind _ _ (Yields-query _) (λ merge_head _.
                  Yields-bind _ _ Yields-load_rebase_in_progress (λ rebasing _.
                    Yields-bind _ _ (Yields-query _) (λ pick_head _.
                      Yields-bind _ _ (Yields-query _) (λ unmerged _.
                        Yields-bind _ _ (Yields-load_recent_commits _) (λ commits _.
                          Yields-bind _ _ (Yields-query _)
                            (λ reflog _. Yields-ret _ are_entries)))))))))))

  -- Where `git status` succeeds and prints the same ASCII text in every world, the data are loaded,
  -- whatever the other commands of git answer, and the entries are those of the rows of the trimmed
  -- text by their characters.
  pub load_repo_data-ascii :
      (text : Text) (w : S.World)
      → StatusPrints S repo text
      → AllAscii text
      → (repo_data : RepoData) × (w' : S.World) × (load_repo_data S repo w
          ≡ some (ok repo_data, w'))
        × (repo_data.status_entries ≡ entries_of (status_lines (trim text)))
  load_repo_data-ascii text w prints ascii =
      (load_repo_data-entries text _ prints
          (parse_status_entries-ascii (trim text) (trim-ascii text ascii))).at
        w
