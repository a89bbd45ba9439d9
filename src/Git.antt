-- ===== src/Git.antt =====
-- The queries of gui/src/main.rs that run git: `run_git`, `load_diff_output`, `resolve_git_path`,
-- `git_path_exists` and `load_repo_data`.
pub mod Safe
pub mod Loads
use dqrvcs.Prelude.{
  Bool, true, false, not, List, [], ◌∷◌, ◌++◌, if◌then◌else◌, is_empty, retain, map, Option, none,
  some, Result, ok, err, ok_or, String,
}
use dqrvcs.Text.{Text, codes}
use dqrvcs.Text.Trim.{trim, is_blank}
use dqrvcs.Text.Split.{lines}
use dqrvcs.Paths.{FilePath, is_absolute, join_path}
use dqrvcs.Status.{StatusEntry, status_lines, parse_status_entries}
use dqrvcs.History.{CommitSummary, ReflogEntry, parse_recent_commits, parse_reflog_entries}
use dqrvcs.Act.{Act, ret, lift, call, try_call, expect, map_err, attempt, ◌>>=◌}
use dqrvcs.System.{System, Output}

pub record RepoData : Type 0 where
  pub branch : Text
  pub head : Text
  pub status_lines : List Text
  pub status_entries : List StatusEntry
  pub branch_graph : Text
  pub merge_in_progress : Bool
  pub rebase_in_progress : Bool
  pub cherry_pick_in_progress : Bool
  pub conflict_files : List Text
  pub recent_commits : List CommitSummary
  pub reflog_entries : List ReflogEntry

-- `.is_ok()`
abbrev pub is_ok {ℓ} : {A : Type ℓ} → Result A → Bool
is_ok (ok a) = true
is_ok (err e) = false

abbrev pub words : List String → List Text
words = map codes

-- `.lines().map(trim).filter(non-empty)`
unfoldable pub trimmed_lines : Text → List Text
trimmed_lines raw = retain (λ line. not (is_empty line)) (map trim (lines raw))

module _ (S : System) where
  open S use {World, process_output, exists, debug_args}

  -- What `run_git` makes of the finished process.
  unfoldable pub git_result : List Text → Output → Result Text
  git_result args output =
      let stderr = trim output.stderr in
      if output.success
      then ok (trim output.stdout)
      else if is_empty stderr
      then err (codes "git " ++ (debug_args args ++ (codes " failed: " ++ output.status)))
      else err (codes "git " ++ (debug_args args ++ (codes " failed: " ++ stderr)))

  unfoldable pub run_git : FilePath → List Text → Act World Text
  unfolding git_result
  run_git repo args = do
    output ←
        map_err (λ e. codes "failed to execute git: " ++ e)
          (try_call (process_output (codes "git") (codes "-C" ∷ repo ∷ args)))
    lift (git_result args output)

  unfoldable pub resolve_git_path : FilePath → Text → Act World (Option FilePath)
  resolve_git_path repo git_path_name = do
    answer ← attempt (run_git repo (codes "rev-parse" ∷ codes "--git-path" ∷ git_path_name ∷ []))
    let git_path = trim (ok_or answer [])
    if is_empty git_path
        then ret none
        else if is_absolute git_path
        then ret (some git_path)
        else ret (some (join_path repo git_path))

  unfoldable pub git_path_exists : FilePath → Text → Act World Bool
  git_path_exists repo git_path_name = do
    resolved ← resolve_git_path repo git_path_name
    elim resolved [ none ↦ ret false | some path ↦ call (exists path) ]

  -- The text of the diff panel for an output of `git diff`.
  unfoldable pub describe_diff : Text → Bool → Text → Text
  describe_diff scope staged output =
      let mode = if staged then codes "staged" else codes "working tree" in
      if is_blank output
      then if is_empty scope
        then codes "(no " ++ (mode ++ codes " changes)")
        else codes "(no " ++ (mode ++ (codes " changes for " ++ (scope ++ codes ")")))
      else output

  unfoldable pub diff_args : Text → Bool → List Text
  diff_args scope staged =
      let tail = if is_empty scope then [] else codes "--" ∷ scope ∷ [] in
      if staged then codes "diff" ∷ codes "--cached" ∷ tail else codes "diff" ∷ tail

  unfoldable pub load_diff_output : FilePath → Text → Bool → Act World Text
  unfolding describe_diff diff_args
  load_diff_output repo path staged = do
    found ← call (exists repo)
    if not found then ret (codes "(repository path does not exist)") else do
      output ← run_git repo (diff_args (trim path) staged)
      ret (describe_diff (trim path) staged output)

  -- The branch, by name or by `rev-parse`.
  unfoldable pub load_branch : FilePath → Act World Text
  load_branch repo = do
    symbolic ← attempt (run_git repo (words ("symbolic-ref" ∷ "--short" ∷ "-q" ∷ "HEAD" ∷ [])))
    elim symbolic [
      | ok name ↦ ret name
      | err _ ↦ do
        abbreviated ← attempt (run_git repo (words ("rev-parse" ∷ "--abbrev-ref" ∷ "HEAD" ∷ [])))
        ret (ok_or abbreviated (codes "(unknown)"))
    ]

  unfoldable pub load_branch_graph : FilePath → Text → Act World Text
  load_branch_graph repo head = if is_blank head then ret (codes "(no commits yet)") else do
    graph ← attempt (
        run_git repo
          (words ("log" ∷ "--graph" ∷ "--decorate" ∷ "--oneline" ∷ "--all" ∷ "-n" ∷ "120" ∷ [])))
    elim graph [
      | ok text ↦ ret text
      | err e ↦ ret (codes "(unable to load branch graph: " ++ (e ++ codes ")"))
    ]

  unfoldable pub load_recent_commits : FilePath → Text → Act World (List CommitSummary)
  load_recent_commits repo head = if is_blank head then ret [] else do
    raw ← attempt (
        run_git repo (
          words (
            "log" ∷ "--date=short" ∷ "--pretty=format:%H%x1f%h%x1f%an%x1f%ad%x1f%s" ∷ "-n" ∷ "120"
            ∷ [])))
    ret (parse_recent_commits (ok_or raw []))

  -- `git_path_exists(..) || git_path_exists(..)`
  unfoldable pub load_rebase_in_progress : FilePath → Act World Bool
  load_rebase_in_progress repo = do
    merging ← git_path_exists repo (codes "rebase-merge")
    if merging then ret true else git_path_exists repo (codes "rebase-apply")

  unfoldable pub load_repo_data : FilePath → Act World RepoData
  unfolding load_branch load_branch_graph load_recent_commits load_rebase_in_progress
  load_repo_data repo = do
    branch ← load_branch repo
    head_raw ← attempt (run_git repo (words ("rev-parse" ∷ "--verify" ∷ "HEAD" ∷ [])))
    let head = ok_or head_raw []
    status_raw ← run_git repo (words ("status" ∷ "--short" ∷ []))
    let rows = status_lines status_raw
    entries ← expect (parse_status_entries rows)
    graph ← load_branch_graph repo head
    merge_head ←
        attempt (run_git repo (words ("rev-parse" ∷ "-q" ∷ "--verify" ∷ "MERGE_HEAD" ∷ [])))
    rebasing ← load_rebase_in_progress repo
    pick_head ←
        attempt (run_git repo (words ("rev-parse" ∷ "-q" ∷ "--verify" ∷ "CHERRY_PICK_HEAD" ∷ [])))
    unmerged ← attempt (run_git repo (words ("diff" ∷ "--name-only" ∷ "--diff-filter=U" ∷ [])))
    commits ← load_recent_commits repo head
    reflog ← attempt (
        run_git repo (
          words (
            "reflog" ∷ "--date=short" ∷ "--pretty=format:%h%x1f%gd%x1f%gs%x1f%ad" ∷ "-n" ∷ "120"
            ∷ [])))
    ret (record {
      branch = trim branch;
      head = trim head;
      status_lines = rows;
      status_entries = entries;
      branch_graph = graph;
      merge_in_progress = is_ok merge_head;
      rebase_in_progress = rebasing;
      cherry_pick_in_progress = is_ok pick_head;
      conflict_files = trimmed_lines (ok_or unmerged []);
      recent_commits = commits;
      reflog_entries = parse_reflog_entries (ok_or reflog []);
    })
