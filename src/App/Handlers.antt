-- ===== src/App/Handlers.antt =====
-- The buttons' handlers, `on_stage_all` to `on_run_reset`, and `run_cli_input_command`.
use dqrvcs.Prelude.{Bool, true, false, not, List, [], ◌∷◌, ◌++◌, if◌then◌else◌, is_empty, ok, err}
use dqrvcs.Text.{Text, codes, eqb}
use dqrvcs.Text.Trim.{trim}
use dqrvcs.Text.Split.{join}
use dqrvcs.Args.{
  build_path_action_args, build_commit_args, build_amend_args, build_checkout_args,
  build_revert_args, build_squash_args, build_merge_start_args, build_conflict_resolution_args,
  build_git_add_path_args, build_merge_commit_args, build_rebase_args, build_cherry_pick_args,
  build_reset_args,
}
use dqrvcs.Cli.{parse_cli_tokens, is_allowed_vcs_command, allowed_vcs_commands}
use dqrvcs.System.{System}
use dqrvcs.App.{Method, say}
use dqrvcs.App.Run.{run_vcs_command, run_git_command, run_vcs_command_static, run_built}

abbrev pub enter_command : Text
enter_command = codes "Enter a VCS command"

-- `if tokens.first() == Some("vcs") { tokens.remove(0) }`
unfoldable pub drop_vcs : List Text → List Text
drop_vcs [] = []
drop_vcs (t ∷ ts) = if eqb t (codes "vcs") then ts else t ∷ ts

module _ (S : System) where
  abbrev pub not_allowed : Text → Text
  not_allowed command =
      codes "Command "
      ++ (S.debug_str command
          ++ (codes " is not allowed in GUI CLI input. Allowed: "
              ++ join (codes ", ") allowed_vcs_commands))

  unfoldable pub run_cli_tokens : List Text → Method S
  run_cli_tokens [] app w = say S enter_command app w
  run_cli_tokens (command ∷ rest) app w =
      if is_empty command
      then say S enter_command app w
      else if not (is_allowed_vcs_command command)
      then say S (not_allowed command) app w
      else run_vcs_command S (command ∷ rest) app w

  unfoldable pub run_cli_input_command : Method S
  unfolding run_cli_tokens drop_vcs
  run_cli_input_command app w =
      let raw = trim app.cli_input in
      if is_empty raw then say S enter_command app w else elim (parse_cli_tokens raw) [
        | err e ↦ say S e app w
        | ok tokens ↦
            if is_empty tokens
            then say S enter_command app w
            else run_cli_tokens (drop_vcs tokens) app w
      ]

  unfoldable pub on_stage_all : Method S
  on_stage_all = run_vcs_command_static S ("stage" ∷ [])

  unfoldable pub on_unstage_all : Method S
  on_unstage_all = run_vcs_command_static S ("unstage" ∷ [])

  unfoldable pub on_stage_file : Method S
  on_stage_file app =
      run_built S (run_vcs_command S)
        (build_path_action_args (codes "stage") (trim app.git_form.selected_diff_file)
          (codes "Select a file to stage"))
        app

  unfoldable pub on_unstage_file : Method S
  on_unstage_file app =
      run_built S (run_vcs_command S)
        (build_path_action_args (codes "unstage") (trim app.git_form.selected_diff_file)
          (codes "Select a file to unstage"))
        app

  unfoldable pub on_commit : Bool → Method S
  on_commit all app =
      run_built S (run_vcs_command S) (build_commit_args (trim app.git_form.commit_message) all) app

  unfoldable pub on_amend : Method S
  on_amend app = run_vcs_command S (build_amend_args (trim app.git_form.commit_message)) app

  unfoldable pub on_checkout : Method S
  on_checkout app =
      run_built S (run_vcs_command S) (build_checkout_args (trim app.git_form.checkout_target)) app

  unfoldable pub on_revert : Bool → Method S
  on_revert no_commit app =
      run_built S (run_vcs_command S)
        (build_revert_args (trim app.git_form.revert_target) no_commit) app

  unfoldable pub on_pull : Method S
  on_pull = run_vcs_command_static S ("pull" ∷ [])

  unfoldable pub on_push : Bool → Method S
  on_push true = run_vcs_command_static S ("push" ∷ "--no-auto-proposal" ∷ [])
  on_push false = run_vcs_command_static S ("push" ∷ [])

  unfoldable pub on_squash : Method S
  on_squash app =
      run_built S (run_vcs_command S)
        (build_squash_args (trim app.git_form.squash_last) (trim app.git_form.squash_from)
          (trim app.git_form.squash_message) app.git_form.squash_allow_dirty)
        app

  unfoldable pub on_start_merge : Method S
  on_start_merge app =
      run_built S (run_git_command S) (build_merge_start_args (trim app.merge_form.merge_target))
        app

  unfoldable pub on_resolve_conflict_with_side : Text → Method S
  on_resolve_conflict_with_side strategy app =
      run_built S (run_git_command S)
        (build_conflict_resolution_args strategy (trim app.merge_form.selected_conflict_file)) app

  unfoldable pub on_mark_conflict_resolved_add : Method S
  on_mark_conflict_resolved_add app =
      run_built S (run_git_command S)
        (build_git_add_path_args (trim app.merge_form.selected_conflict_file)) app

  unfoldable pub on_commit_merge : Method S
  on_commit_merge app =
      run_built S (run_git_command S)
        (build_merge_commit_args (trim app.merge_form.merge_commit_message)) app

  unfoldable pub on_run_rebase : Method S
  on_run_rebase app =
      run_built S (run_git_command S)
        (build_rebase_args (trim app.history_form.rebase_onto) app.history_form.rebase_autosquash
          app.history_form.rebase_autostash app.history_form.rebase_merges)
        app

  unfoldable pub on_run_cherry_pick : Method S
  on_run_cherry_pick app =
      run_built S (run_git_command S)
        (build_cherry_pick_args (trim app.history_form.cherry_pick_refs)
          app.history_form.cherry_pick_no_commit)
        app

  unfoldable pub on_run_reset : Method S
  on_run_reset app =
      run_built S (run_git_command S)
        (build_reset_args (trim app.history_form.reset_target) app.history_form.reset_mode
          app.history_form.confirm_hard_reset)
        app
