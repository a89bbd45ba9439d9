-- ===== src/App/Keeps.antt =====
-- What the methods of the state (gui/src/main.rs) do to the conflict editor: a property of the
-- editor that loading and resetting establish is kept by every method, unless it panics.
pub mod Buttons
pub mod Forms
use dqrvcs.Prelude.{
  Bool, true, false, ◌&&◌, ◌||◌, List, [], ◌≡◌, refl, inl, inr, if◌then◌else◌, is_empty, not,
  Bool-cases, Option, none, some, Option-cases, Result, ok, err,
}
use dqrvcs.Text.{Text, codes, eqb}
use dqrvcs.Text.Trim.{trim, is_blank}
use dqrvcs.Paths.{FilePath}
use dqrvcs.Conflict.{ConflictEditorState, ConflictLineSource, apply_conflict_choice_to_all_hunks}
use dqrvcs.Files.{load_conflict_editor_state}
use dqrvcs.Git.{RepoData, load_repo_data, load_diff_output}
use dqrvcs.Act.Safe.{Unless, panicked}
use dqrvcs.Consensus.{GossipData, sums_overflow}
use dqrvcs.Git.Safe.{RowsCut, Safe-load_diff_output, Safe-load_repo_data}
use dqrvcs.Gossip.Safe.{Safe-load_gossip_data, Safe-resolve_vcs_binary}
use dqrvcs.System.{System}
use dqrvcs.Gossip.{load_gossip_data}
use dqrvcs.Binary.{resolve_vcs_binary}
use dqrvcs.App.{VcsGuiApp, Method, MergeForm, say}
use dqrvcs.App.Refresh.{
  default_editor, diff_text, follow_merge, follow_before_diff, follow_after_diff,
  refresh_diff_output, follow_data, take_gossip, load_gossip, take_repo, refresh,
}
use dqrvcs.App.Run.{
  describe_run, run_command_with_env, run_command, run_vcs_command, run_git_command,
  run_git_command_with_env, run_built,
}

module _ {S : System} where
  -- What holds of the editor of the state that a method leaves; `C` holds if it panics.
  abbrev pub Leaves :
      Type 0 → (ConflictEditorState → Type 0) → Option (VcsGuiApp S × S.World) → Type 0
  Leaves C P none = C
  Leaves C P (some (app, w)) = P app.merge_form.editor

  -- The method keeps `P` of the editor, and panics only where `C` holds.
  pub record Keeps (C : Type 0) (P : ConflictEditorState → Type 0) (m : Method S) : Type 0 where
    pub at : (app : VcsGuiApp S) (w : S.World) → P app.merge_form.editor → Leaves C P (m app w)

-- `C` holds where a row of `git status` is cut inside a character, a clock panics, or a sum of votes
-- overflows with checks. The editors that the methods set have `P`, and so do the editors that come
-- from one with `P`.
pub record Closed (S : System) (C : Type 0) (P : ConflictEditorState → Type 0) : Type 0 where
  pub cut : RowsCut S C
  pub clock : (w : S.World) → Unless C (S.utc_now w)
  pub nanos : (w : S.World) → Unless C (S.timestamp_nanos w)
  pub sums :
      (gossip : GossipData S.E.V S.E.F) → (S.overflow_checks && sums_overflow S.E gossip) ≡ true → C
  pub empty : P default_editor
  pub failed : (path e : Text) → P (record { file_path = path; sections = []; parse_error = e })
  pub loaded :
      (repo : FilePath) (path : Text) (editor : ConflictEditorState) (w w' : S.World)
      → load_conflict_editor_state S repo path w ≡ some (ok editor, w')
      → P editor
  pub one_side :
      (editor : ConflictEditorState) (source : ConflictLineSource)
      → P editor
      → P (record editor { sections = apply_conflict_choice_to_all_hunks editor.sections source })

module _ {S : System} {C : Type 0} {P : ConflictEditorState → Type 0} where
  pub Keeps-say : (message : Text) → Keeps C P (say S message)
  Keeps-say message = record { at = λ app w h. h }

  pub Keeps-refresh_diff_output : Keeps C P (refresh_diff_output S)
  unfolding refresh_diff_output
  Keeps-refresh_diff_output = record {
    at = λ app w h.
        elim (Option-cases (
          load_diff_output S (trim app.repo_path) (trim app.git_form.selected_diff_file)
            app.git_form.show_staged_diff w)) [
              | inl e ↦ rw (refresh_diff_output, e) (panicked (Safe-load_diff_output S _ _ _) w e)
              | inr ((r, w'), e) ↦ rw (refresh_diff_output, e) h
            ];
  }

module _ {S : System} {C : Type 0} {P : ConflictEditorState → Type 0} (closed : Closed S C P) where
  either_editor : (b : Bool) (s t : ConflictEditorState) → P s → P t → P (if b then s else t)
  either_editor true s t hs ht = hs
  either_editor false s t hs ht = ht

  follow_after_diff-keeps :
      (app : VcsGuiApp S) → P app.merge_form.editor → P (follow_after_diff S app).merge_form.editor
  unfolding follow_after_diff follow_merge
  follow_after_diff-keeps app h = either_editor _ _ _ closed.empty h

  Keeps-follow_data : Keeps C P (follow_data S)
  unfolding follow_data follow_before_diff
  Keeps-follow_data = record {
    at = λ app w h.
        let kept = (Keeps-refresh_diff_output {C = C} {P = P}).at (follow_before_diff S app) w h in
        elim (Option-cases (refresh_diff_output S (follow_before_diff S app) w)) [
          | inl e ↦ rw (follow_data, e) (rw e at kept)
          | inr ((app', w'), e) ↦ rw (follow_data, e) (follow_after_diff-keeps app' (rw e at kept))
        ];
  }

  Keeps-take_gossip : (r : Result _) → Keeps C P (take_gossip S r)
  unfolding take_gossip
  Keeps-take_gossip (ok gossip) = record {
    at = λ app w h. elim (Option-cases (S.utc_now w)) [
      | inl e ↦ rw (take_gossip, e) (rw e at (closed.clock w))
      | inr ((now, w'), e) ↦ elim (Bool-cases (S.overflow_checks && sums_overflow S.E gossip)) [
        | inl b ↦ rw (take_gossip, e, b) (closed.sums gossip b)
        | inr b ↦ rw (take_gossip, e, b) h
      ]
    ];
  }
  Keeps-take_gossip (err e) = record { at = λ app w h. h }

  Keeps-load_gossip : (repo : FilePath) → Keeps C P (load_gossip S repo)
  unfolding load_gossip
  Keeps-load_gossip repo = record {
    at = λ app w h. elim (Option-cases (load_gossip_data S repo w)) [
      | inl e ↦ rw (load_gossip, e) (panicked (Safe-load_gossip_data S repo) w e)
      | inr ((r, w'), e) ↦ rw (load_gossip, e) ((Keeps-take_gossip r).at app w' h)
    ];
  }

  Keeps-take_repo : (repo : FilePath) (r : Result RepoData) → Keeps C P (take_repo S repo r)
  unfolding take_repo
  Keeps-take_repo repo (err e) = record { at = λ app w h. h }
  Keeps-take_repo repo (ok repo_data) = record {
    at = λ app w h.
        let app1 : VcsGuiApp S = record app {
          app_data = record (app.app_data) { repo = repo_data };
        } in
        let kept = (Keeps-load_gossip repo).at app1 w h in
        elim (Option-cases (load_gossip S repo app1 w)) [
          | inl e ↦ rw (take_repo, e) (rw e at kept)
          | inr ((app', w'), e) ↦ rw (take_repo, e) (Keeps-follow_data.at app' w' (rw e at kept))
        ];
  }

  pub Keeps-refresh : Keeps C P (refresh S)
  unfolding refresh
  Keeps-refresh = record {
    at = λ app w h.
        let (instant, w1) = S.instant_now w in
        let app1 : VcsGuiApp S = record app { last_refresh = instant } in
        let repo = trim app.repo_path in
        elim (Bool-cases (is_empty repo)) [
          | inl e ↦ rw (refresh, e) h
          | inr e ↦ elim (Option-cases (load_repo_data S repo w1)) [
            | inl f ↦ rw (refresh, e, f) (panicked (Safe-load_repo_data S closed.cut repo) w1 f)
            | inr ((r, w2), f) ↦ rw (refresh, e, f) ((Keeps-take_repo repo r).at app1 w2 h)
          ]
        ];
  }

  pub refresh_if-keeps :
      (b : Bool) (app : VcsGuiApp S) (w : S.World)
      → P app.merge_form.editor
      → Leaves C P (if b then refresh S app w else some (app, w))
  refresh_if-keeps true app w h = Keeps-refresh.at app w h
  refresh_if-keeps false app w h = h

  pub Keeps-run_command_with_env :
      (program : Text) (args : List Text) (envs : List (Text × Text)) (context : Text)
      → Keeps C P (run_command_with_env S program args envs context)
  unfolding run_command_with_env
  Keeps-run_command_with_env program args envs context = record {
    at = λ app w h.
        let (r, w') = S.command_run program args (trim app.repo_path) envs w in
        let app' : VcsGuiApp S = record app { action_output = describe_run S context r } in
        elim (Bool-cases (is_blank program || is_empty (trim app.repo_path))) [
          | inl e ↦ rw (run_command_with_env, e) h
          | inr e ↦
              rw (run_command_with_env, e) (refresh_if-keeps app.refresh_after_command app' w' h)
        ];
  }

  pub Keeps-run_git_command : (args : List Text) → Keeps C P (run_git_command S args)
  unfolding run_git_command run_command
  Keeps-run_git_command args = Keeps-run_command_with_env (codes "git") args [] _

  pub Keeps-run_git_command_with_env :
      (args : List Text) (envs : List (Text × Text)) (context : Text)
      → Keeps C P (run_git_command_with_env S args envs context)
  unfolding run_git_command_with_env
  Keeps-run_git_command_with_env args envs context =
      Keeps-run_command_with_env (codes "git") args envs context

  pub Keeps-run_vcs_command : (args : List Text) → Keeps C P (run_vcs_command S args)
  unfolding run_vcs_command run_command
  Keeps-run_vcs_command args = record {
    at = λ app w h.
        elim (Option-cases (resolve_vcs_binary S (trim app.vcs_binary) (trim app.repo_path) w)) [
          | inl e ↦ rw (run_vcs_command, e) (panicked (Safe-resolve_vcs_binary S _ _) w e)
          | inr ((ok bin, w'), e) ↦
              rw (run_vcs_command, e) ((Keeps-run_command_with_env bin args [] _).at app w' h)
          | inr ((err e', w'), e) ↦ rw (run_vcs_command, e) h
        ];
  }

  Leaves-built :
      (run : List Text → Method S) (args : Result (List Text)) (app : VcsGuiApp S) (w : S.World)
      → ((ts : List Text) → Keeps C P (run ts))
      → P app.merge_form.editor
      → Leaves C P (run_built S run args app w)
  Leaves-built run (ok ts) app w kept h = (kept ts).at app w h
  Leaves-built run (err e) app w kept h = h

  -- A button whose arguments are read from the state.
  pub Keeps-vcs :
      (args : VcsGuiApp S → List Text) → Keeps C P (λ app. run_vcs_command S (args app) app)
  Keeps-vcs args = record { at = λ app w h. (Keeps-run_vcs_command (args app)).at app w h }

  pub Keeps-built_vcs :
      (args : VcsGuiApp S → Result (List Text))
      → Keeps C P (λ app. run_built S (run_vcs_command S) (args app) app)
  Keeps-built_vcs args = record {
    at = λ app w h. Leaves-built (run_vcs_command S) (args app) app w Keeps-run_vcs_command h;
  }

  pub Keeps-built_git :
      (args : VcsGuiApp S → Result (List Text))
      → Keeps C P (λ app. run_built S (run_git_command S) (args app) app)
  Keeps-built_git args = record {
    at = λ app w h. Leaves-built (run_git_command S) (args app) app w Keeps-run_git_command h;
  }
