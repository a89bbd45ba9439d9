-- ===== src/Draw/Screen.antt =====
-- One frame of the window: `eframe::App::update`, the tabs, `draw_bottom_panel` and
-- `draw_cli_input_panel` of gui/src/main.rs.
use dqrvcs.Prelude.{suc, ◌||◌, [], ◌∷◌, if◌then◌else◌, Option, none, some, length}
use dqrvcs.Text.{codes}
use dqrvcs.Text.Split.{join}
use dqrvcs.Cli.{allowed_vcs_commands}
use dqrvcs.System.{System}
use dqrvcs.App.{VcsGuiApp, Method, MiddleTab, staging, advanced, collaboration}
use dqrvcs.App.Refresh.{refresh}
use dqrvcs.App.Handlers.{run_cli_input_command}
use dqrvcs.Draw.{
  Ui, Panel, heading, label, button, run_all, observe, when, paint, act, assign, on_click,
  choose_value, text_edit,
}
use dqrvcs.Draw.Labels.{format}
use dqrvcs.Draw.Repo.{
  draw_top_controls, draw_repo_panel, draw_git_panel, draw_diff_panel, draw_branch_graph_panel,
}
use dqrvcs.Draw.Merge.{draw_merge_panel}
use dqrvcs.Draw.History.{draw_history_panel}
use dqrvcs.Draw.Gossip.{
  draw_consensus_config_panel, draw_node_panel, draw_actions_panel, draw_pending_panel,
  draw_proposals_panel, draw_ops_panel,
}

module _ (S : System) where
  open S use {World, Duration, seconds, max_seconds, from_secs_f32, elapsed_reaches}

  -- `Duration::from_secs_f32(self.refresh_every_sec.max(1.0))`, or a panic.
  unfoldable pub refresh_period : VcsGuiApp S → Option Duration
  refresh_period app = from_secs_f32 (max_seconds app.refresh_every_sec (seconds 1))

  -- The automatic refresh at the start of a frame.
  unfoldable pub refresh_when_due : Method S
  unfolding refresh_period
  refresh_when_due app w = elim (refresh_period app) [
    | none ↦ none
    | some period ↦
        let (due, w') = elapsed_reaches app.last_refresh period w in
        if app.auto_refresh then if due then refresh S app w' else some (app, w') else some (app, w)
  ]

module _ {S : System} (ui : Ui S) where
  -- The command field, its two buttons, and Enter in the field.
  unfoldable pub draw_cli_row : Panel S
  draw_cli_row fr w =
      let k = length fr.items in
      let run_now = ui.clicked (suc k) || ui.entered k in
      run_all
        (text_edit ui VcsGuiApp.cli_input (λ t app. record app { cli_input = t })
          ∷ paint button (codes "Execute")
          ∷ when run_now (act (run_cli_input_command S))
          ∷ on_click ui (codes "Clear") (assign (λ app. record app { cli_input = [] }))
          ∷ [])
        fr w

  unfoldable pub draw_cli_input_panel : Panel S
  unfolding draw_cli_row
  draw_cli_input_panel = run_all (
      paint heading (codes "Run VCS CLI Command")
      ∷ paint label
          (format (codes "Allowed commands: " ∷ join (codes ", ") allowed_vcs_commands ∷ []))
      ∷ draw_cli_row
      ∷ [])

  unfoldable pub draw_bottom_panel : Panel S
  unfolding draw_cli_input_panel
  draw_bottom_panel = run_all (
      paint heading (codes "Last Command Output")
      ∷ text_edit ui VcsGuiApp.action_output (λ t app. record app { action_output = t })
      ∷ draw_cli_input_panel
      ∷ [])

  unfoldable pub draw_middle_tab_selector : Panel S
  draw_middle_tab_selector = run_all (
      choose_value ui (codes "Staging") (λ app. record app { middle_tab = staging }) (run_all [])
      ∷ choose_value ui (codes "Advanced") (λ app. record app { middle_tab = advanced })
          (run_all [])
      ∷ choose_value ui (codes "Collaboration") (λ app. record app { middle_tab = collaboration })
          (run_all [])
      ∷ [])

  unfoldable pub draw_staging_tab : Panel S
  draw_staging_tab = run_all (draw_repo_panel ∷ draw_git_panel ui ∷ draw_diff_panel ui ∷ [])

  unfoldable pub draw_advanced_tab : Panel S
  draw_advanced_tab =
      run_all (draw_history_panel ui ∷ draw_merge_panel ui ∷ draw_branch_graph_panel ∷ [])

  unfoldable pub draw_collaboration_tab : Panel S
  draw_collaboration_tab = run_all (
      draw_node_panel ui
      ∷ draw_consensus_config_panel ui
      ∷ draw_actions_panel ui
      ∷ draw_proposals_panel ui
      ∷ draw_pending_panel S
      ∷ draw_ops_panel S
      ∷ [])

  unfoldable pub draw_tab : MiddleTab → Panel S
  unfolding draw_staging_tab draw_advanced_tab draw_collaboration_tab
  draw_tab staging = draw_staging_tab
  draw_tab advanced = draw_advanced_tab
  draw_tab collaboration = draw_collaboration_tab

  -- What is drawn, in order: the top, the bottom and the centre.
  unfoldable pub draw_window : Panel S
  unfolding draw_bottom_panel draw_middle_tab_selector draw_tab
  draw_window = run_all (
      draw_top_controls ui
      ∷ draw_bottom_panel
      ∷ draw_middle_tab_selector
      ∷ observe (λ app. draw_tab app.middle_tab)
      ∷ [])

  unfoldable pub update_frame : Panel S
  unfolding draw_window refresh_when_due
  update_frame = run_all (act (refresh_when_due S) ∷ draw_window ∷ [])

  unfoldable pub update : Method S
  unfolding update_frame
  update app w = elim (update_frame (record { app = app; items = [] }) w) [
    | none ↦ none
    | some (fr, w') ↦ some (fr.app, w')
  ]
