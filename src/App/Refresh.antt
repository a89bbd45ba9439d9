-- ===== src/App/Refresh.antt =====
-- `VcsGuiApp::refresh` and `refresh_diff_output`: the data are read again, and the forms follow.
use dqrvcs.Prelude.{
  not, ◌&&◌, ◌||◌, List, [], ◌∷◌, ◌++◌, if◌then◌else◌, is_empty, none, some, Result, ok, err, any,
}
use dqrvcs.Text.{Text, codes, eqb}
use dqrvcs.Text.Trim.{trim, is_blank}
use dqrvcs.Text.Split.{join}
use dqrvcs.Paths.{FilePath}
use dqrvcs.Status.{StatusEntry}
use dqrvcs.History.{CommitSummary}
use dqrvcs.Conflict.{ConflictEditorState}
use dqrvcs.Consensus.{GossipData, sums_overflow, compute_proposal_views}
use dqrvcs.System.{System}
use dqrvcs.Git.{RepoData, load_repo_data, load_diff_output}
use dqrvcs.Gossip.{load_gossip_data}
use dqrvcs.App.{VcsGuiApp, Method, ProposeForm, GitForm, MergeForm, HistoryForm, ConsensusForm}

-- `.first().map(f).unwrap_or_default()`
abbrev pub first_or_empty : {A : Type 0} → (A → Text) → List A → Text
first_or_empty f [] = []
first_or_empty f (a ∷ rest) = f a

-- The selection, where some item has it, and the first item where none has.
unfoldable pub reselect : {A : Type 0} → (A → Text) → List A → Text → Text
reselect f items selected =
    if any (λ a. eqb (f a) selected) items then selected else first_or_empty f items

abbrev pub default_editor : ConflictEditorState
default_editor = record { file_path = []; sections = []; parse_error = [] }

unfoldable pub follow_propose : RepoData → ProposeForm → ProposeForm
follow_propose repo form =
    let branch = trim repo.branch in
    let reference =
      if is_blank form.reference && not (is_empty branch) && not (eqb branch (codes "HEAD"))
      then codes "refs/heads/" ++ branch
      else form.reference in
    record form {
      reference = reference;
      new_oid = if is_blank form.new_oid then repo.head else form.new_oid;
    }

unfoldable pub follow_git : RepoData → GitForm → GitForm
unfolding reselect
follow_git repo form = record form {
  selected_diff_file = reselect StatusEntry.path repo.status_entries form.selected_diff_file;
}

unfoldable pub follow_merge : RepoData → MergeForm → MergeForm
unfolding reselect
follow_merge repo form =
    let selected = reselect (λ path. path) repo.conflict_files form.selected_conflict_file in
    let stale = not (is_empty form.editor.file_path) && not (eqb form.editor.file_path selected) in
    record form {
      selected_conflict_file = selected;
      editor = if is_empty selected || stale then default_editor else form.editor;
    }

unfoldable pub follow_history : RepoData → HistoryForm → HistoryForm
unfolding reselect
follow_history repo form = record form {
  selected_commit = reselect CommitSummary.hash repo.recent_commits form.selected_commit;
  rebase_onto = if is_blank form.rebase_onto then repo.branch else form.rebase_onto;
  rebase_todo_info =
      if is_blank form.rebase_todo_info && repo.rebase_in_progress
      then codes "Rebase in progress: load todo to edit steps"
      else form.rebase_todo_info;
}

module _ (S : System) where
  open S use {World, instant_now, utc_now, overflow_checks, walk, show_f64_2}

  unfoldable pub follow_consensus : GossipData S.E.V S.E.F → ConsensusForm → ConsensusForm
  follow_consensus gossip form = record {
    threshold =
        if is_blank form.threshold then show_f64_2 gossip.consensus_threshold else form.threshold;
    members_csv =
        if is_blank form.members_csv
        then join (codes ",") gossip.consensus_members
        else form.members_csv;
  }

  -- `load_diff_output(..).unwrap_or_else(|err| format!("(unable to load diff: {err})"))`
  unfoldable pub diff_text : Result Text → Text
  diff_text (ok text) = text
  diff_text (err e) = codes "(unable to load diff: " ++ (e ++ codes ")")

  unfoldable pub refresh_diff_output : Method S
  unfolding diff_text
  refresh_diff_output app w =
      elim (load_diff_output S (trim app.repo_path) (trim app.git_form.selected_diff_file)
        app.git_form.show_staged_diff w) [
          | none ↦ none
          | some (r, w') ↦ some (record app { diff_output = diff_text r }, w')
        ]

  -- `refresh` before the diff is loaded: the forms of proposals and of the diff.
  unfoldable pub follow_before_diff : VcsGuiApp S → VcsGuiApp S
  unfolding follow_propose follow_git
  follow_before_diff app =
      let repo = app.app_data.repo in
      record app {
        propose_form = follow_propose repo app.propose_form;
        git_form = follow_git repo app.git_form;
      }

  -- And after it: the forms of conflicts, history and consensus.
  unfoldable pub follow_after_diff : VcsGuiApp S → VcsGuiApp S
  unfolding follow_merge follow_history follow_consensus
  follow_after_diff app =
      let data' = app.app_data in
      record app {
        merge_form = follow_merge data'.repo app.merge_form;
        history_form = follow_history data'.repo app.history_form;
        consensus_form = follow_consensus data'.gossip app.consensus_form;
      }

  unfoldable pub follow_data : Method S
  unfolding refresh_diff_output follow_before_diff follow_after_diff
  follow_data app w = elim (refresh_diff_output (follow_before_diff app) w) [
    | none ↦ none
    | some (app', w') ↦ some (follow_after_diff app', w')
  ]

  -- The gossip data, with the views computed from them; an error leaves the old data. The clock is
  -- asked once, also where no proposal expires; it, or the sum for the quorum, may panic.
  unfoldable pub take_gossip : Result (GossipData S.E.V S.E.F) → Method S
  take_gossip (err e) app w = some (record app { load_error = some e }, w)
  take_gossip (ok gossip) app w = elim (utc_now w) [
    | none ↦ none
    | some (now, w') ↦
        if overflow_checks && sums_overflow S.E gossip
        then none
        else some (
          record app {
            app_data = record (app.app_data) {
              proposals = compute_proposal_views S.E walk now gossip;
              gossip = gossip;
            };
            load_error = none;
          },
          w',
        )
  ]

  unfoldable pub load_gossip : FilePath → Method S
  unfolding take_gossip
  load_gossip repo app w = elim (load_gossip_data S repo w) [
    | none ↦ none
    | some (r, w') ↦ take_gossip r app w'
  ]

  unfoldable pub take_repo : FilePath → Result RepoData → Method S
  unfolding load_gossip follow_data
  take_repo repo (err e) app w = some (record app { load_error = some e }, w)
  take_repo repo (ok repo_data) app w =
      elim (load_gossip repo (record app { app_data = record (app.app_data) { repo = repo_data } })
        w) [ none ↦ none | some (app', w') ↦ follow_data app' w' ]

  unfoldable pub refresh : Method S
  unfolding take_repo
  refresh app w =
      let (instant, w1) = instant_now w in
      let app1 : VcsGuiApp S = record app { last_refresh = instant } in
      let repo = trim app.repo_path in
      if is_empty repo
      then some (record app1 { load_error = some (codes "Repository path is empty") }, w1)
      else elim (load_repo_data S repo w1) [ none ↦ none | some (r, w2) ↦ take_repo repo r app1 w2 ]
