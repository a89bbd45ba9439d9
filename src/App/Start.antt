-- ===== src/App/Start.antt =====
-- The state that the client starts with: `guess_repo_root`, `new_with_runner` and `new` of
-- gui/src/main.rs.
use dqrvcs.Prelude.{
  Bool, true, false, [], if◌then◌else◌, Option, none, some, some_or, ok, err, ok_or,
}
use dqrvcs.Text.{codes, eqb}
use dqrvcs.Args.{mixed}
use dqrvcs.Paths.{FilePath, join_path, file_name, parent}
use dqrvcs.Git.{RepoData}
use dqrvcs.Gossip.{default_gossip}
use dqrvcs.Act.{Act, ret, call, try_call, attempt, expect, ◌>>=◌}
use dqrvcs.System.{System}
use dqrvcs.Binary.{default_vcs_binary}
use dqrvcs.App.{VcsGuiApp, staging}
use dqrvcs.App.Refresh.{refresh, default_editor}

-- `RepoData::default()`
abbrev pub default_repo : RepoData
default_repo = record {
  branch = [];
  head = [];
  status_lines = [];
  status_entries = [];
  branch_graph = [];
  merge_in_progress = false;
  rebase_in_progress = false;
  cherry_pick_in_progress = false;
  conflict_files = [];
  recent_commits = [];
  reflog_entries = [];
}

module _ (S : System) where
  open S use {World, exists, current_dir, instant_now, instant_minus, seconds}

  -- `a.exists() && b.exists()`
  abbrev pub both_exist : FilePath → FilePath → Act World Bool
  both_exist a b = do first ← call (exists a); if first then call (exists b) else ret false

  -- The parent of a directory that is called "gui", where it is a Go module, and `cwd` where not;
  -- nothing for a directory of that name with no parent.
  unfoldable pub root_above : FilePath → Act World (Option FilePath)
  root_above cwd =
      if eqb (some_or (file_name cwd) []) (codes "gui")
      then elim (parent cwd) [
        | none ↦ ret none
        | some above ↦ do
          found ← call (exists (join_path above (codes "go.mod")))
          ret (if found then some above else some cwd)
      ]
      else ret (some cwd)

  unfoldable pub guess_repo_root : Act World (Option FilePath)
  unfolding root_above
  guess_repo_root = do
    found ← attempt (try_call current_dir)
    elim found [
      | err _ ↦ ret none
      | ok cwd ↦ do
        here ← both_exist (join_path cwd (codes "go.mod")) (join_path cwd (codes "main.go"))
        if here then ret (some cwd) else root_above cwd
    ]

  -- `guess_repo_root().unwrap_or_else(|| current_dir().unwrap_or_else(|_| "."))`
  unfoldable pub repo_guess : Act World FilePath
  unfolding guess_repo_root
  repo_guess = do
    guess ← guess_repo_root
    elim guess [
      | some root ↦ ret root
      | none ↦ do cwd ← attempt (try_call current_dir); ret (ok_or cwd (codes "."))
    ]

  unfoldable pub initial_state : FilePath → FilePath → S.Instant → VcsGuiApp S
  unfolding default_gossip
  initial_state repo binary last_refresh = record {
    repo_path = repo;
    vcs_binary = binary;
    auto_refresh = true;
    refresh_every_sec = seconds 3;
    middle_tab = staging;
    last_refresh = last_refresh;
    app_data = record { repo = default_repo; gossip = default_gossip S; proposals = [] };
    load_error = none;
    action_output = [];
    cli_input = [];
    diff_output = [];
    propose_form = record {
      reference = [];
      new_oid = [];
      old_oid = [];
      epoch = codes "0";
      ttl_hours = codes "24";
    };
    vote_form = record { proposal_id = []; vote_yes = true };
    peer_form = record { peer_url = [] };
    git_form = record {
      commit_message = [];
      checkout_target = [];
      revert_target = [];
      squash_last = codes "2";
      squash_from = [];
      squash_message = [];
      squash_allow_dirty = false;
      selected_diff_file = [];
      show_staged_diff = false;
    };
    merge_form = record {
      merge_target = [];
      selected_conflict_file = [];
      merge_commit_message = [];
      editor = default_editor;
    };
    history_form = record {
      selected_commit = [];
      rebase_onto = [];
      rebase_autosquash = false;
      rebase_autostash = false;
      rebase_merges = false;
      rebase_todo_text = [];
      rebase_todo_info = [];
      cherry_pick_refs = [];
      cherry_pick_no_commit = false;
      reset_target = [];
      reset_mode = mixed;
      confirm_hard_reset = false;
    };
    consensus_form = record { threshold = []; members_csv = [] };
    refresh_after_command = true;
  }

  -- The state before the first refresh. `Instant::now() - 100 s` panics where there is no such
  -- instant.
  unfoldable pub build_app : Act World (VcsGuiApp S)
  unfolding repo_guess
  build_app = do
    repo ← repo_guess
    binary ← default_vcs_binary S repo
    now ← call instant_now
    last_refresh ← expect (instant_minus now 100)
    ret (initial_state repo binary last_refresh)

  unfoldable pub new_with_runner : Bool → World → Option (VcsGuiApp S × World)
  unfolding build_app
  new_with_runner initial_refresh w = elim (build_app w) [
    | none ↦ none
    | some (err _, w') ↦ none
    | some (ok app, w') ↦ if initial_refresh then refresh S app w' else some (app, w')
  ]

  unfoldable pub new : World → Option (VcsGuiApp S × World)
  unfolding new_with_runner
  new = new_with_runner true
