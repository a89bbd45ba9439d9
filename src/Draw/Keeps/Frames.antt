-- ===== src/Draw/Keeps/Frames.antt =====
-- The panels of gui/src/main.rs with the conflict editor and the command line, the tabs, and a whole
-- frame, keep what holds of the conflict editor.
use dqrvcs.Prelude.{
  Bool, true, false, List, [], ◌∷◌, if◌then◌else◌, some, Option-cases, inl, inr, Bool-cases,
  is_empty,
}
use dqrvcs.Text.{Text}
use dqrvcs.Text.Trim.{trim}
use dqrvcs.App.Refresh.{refresh}
use dqrvcs.Conflict.{ConflictEditorState, ConflictLineSource}
use dqrvcs.System.{System}
use dqrvcs.App.{VcsGuiApp, MiddleTab, staging, advanced, collaboration}
use dqrvcs.App.Keeps.{
  Keeps, Leaves, Closed, Keeps-refresh_diff_output, Keeps-run_git_command, refresh_if-keeps,
}
use dqrvcs.App.Keeps.Buttons.{keeps_buttons}
use dqrvcs.App.Keeps.Forms.{keeps_forms, use_side_for_all_hunks-keeps}
use dqrvcs.App.Editor.{use_side_for_all_hunks}
use dqrvcs.Act.Safe.{Unless}
use dqrvcs.Draw.{Ui, Frame, assign, run_all, act}
use dqrvcs.Draw.Keeps.{
  KeepsFrame, LeavesFrame, AllKeep, AllKeep-nil, AllKeep-cons, KeepsFrame-run_all,
  KeepsFrame-assign, keeps_frame,
}
use dqrvcs.Draw.Hunks.{draw_sections}
use dqrvcs.Draw.Merge.{
  load_in_diff_panel, conflict_choices, select_conflict_file, draw_operation_buttons,
  draw_line_editor, draw_conflicts, draw_merge_panel,
}
use dqrvcs.Draw.Screen.{
  refresh_period, refresh_when_due, draw_cli_row, draw_cli_input_panel, draw_bottom_panel,
  draw_middle_tab_selector, draw_staging_tab, draw_advanced_tab, draw_collaboration_tab, draw_tab,
  draw_window, update_frame, update,
}
use dqrvcs.Draw.Keeps.Panels.{
  KeepsFrame-draw_repo_panel, KeepsFrame-draw_branch_graph_panel, KeepsFrame-draw_top_controls,
  KeepsFrame-draw_git_panel, KeepsFrame-draw_diff_panel, KeepsFrame-draw_history_panel,
  KeepsFrame-draw_pending_panel, KeepsFrame-draw_ops_panel, KeepsFrame-draw_consensus_config_panel,
  KeepsFrame-draw_node_panel, KeepsFrame-draw_actions_panel, KeepsFrame-draw_proposals_panel,
}

module _ {S : System} {C : Type 0} {P : ConflictEditorState → Type 0} (closed : Closed S C P) where
  Keeps-load_in_diff_panel : Keeps C P (load_in_diff_panel S)
  unfolding load_in_diff_panel
  Keeps-load_in_diff_panel = record {
    at = λ app w h. elim (Bool-cases (is_empty (trim app.merge_form.selected_conflict_file))) [
      | inl e ↦ rw (load_in_diff_panel, e) h
      | inr e ↦ rw (load_in_diff_panel, e) (Keeps-refresh_diff_output.at _ w h)
    ];
  }

  refresh_due-keeps :
      (auto due : Bool) (app : VcsGuiApp S) (w w' : S.World)
      → P app.merge_form.editor
      → Leaves C P
          (if auto then if due then refresh S app w' else some (app, w') else some (app, w))
  refresh_due-keeps true due app w w' h = refresh_if-keeps closed due app w' h
  refresh_due-keeps false due app w w' h = h

  refresh_when_due-keeps :
      (app : VcsGuiApp S) (w : S.World)
      → Unless C (refresh_period S app)
      → P app.merge_form.editor
      → Leaves C P (refresh_when_due S app w)
  unfolding refresh_when_due
  refresh_when_due-keeps app w runs h = elim (Option-cases (refresh_period S app)) [
    | inl e ↦ rw (refresh_when_due, e) (rw e at runs)
    | inr (period, e) ↦
        let (due, w') = S.elapsed_reaches app.last_refresh period w in
        rw (refresh_when_due, e) (refresh_due-keeps app.auto_refresh due app w w' h)
  ]

  module _ (ui : Ui S) (edited : KeepsFrame C P (draw_sections ui)) where
    AllKeep-conflict_choices : (paths : List Text) → AllKeep C P (conflict_choices ui paths)
    unfolding conflict_choices
    AllKeep-conflict_choices [] = AllKeep-nil S C P
    AllKeep-conflict_choices (path ∷ paths) =
        AllKeep-cons _ _ (search keeps_frame) (AllKeep-conflict_choices paths)

    KeepsFrame-select_conflict_file :
        (paths : List Text) → KeepsFrame C P (select_conflict_file ui paths)
    unfolding select_conflict_file
    KeepsFrame-select_conflict_file paths = record {
      at = λ fr w h.
          (KeepsFrame-run_all _ (
              AllKeep-cons _ _ (search (keeps_frame, AllKeep-conflict_choices))
                (AllKeep-cons _ _ (search (keeps_frame, keeps_forms)) (AllKeep-nil S C P)))).at
            fr w h;
    }

    KeepsFrame-draw_operation_buttons : KeepsFrame C P (draw_operation_buttons ui)
    unfolding draw_operation_buttons
    KeepsFrame-draw_operation_buttons = search (keeps_frame, Keeps-run_git_command) depth 40

    KeepsFrame-draw_line_editor : KeepsFrame C P (draw_line_editor ui)
    unfolding draw_line_editor
    KeepsFrame-draw_line_editor = search keeps_frame depth 40

    KeepsFrame-one_side :
        (source : ConflictLineSource) → KeepsFrame C P (assign (use_side_for_all_hunks S source))
    KeepsFrame-one_side source =
        KeepsFrame-assign _ (λ app. use_side_for_all_hunks-keeps closed source app)

    KeepsFrame-draw_conflicts : (paths : List Text) → KeepsFrame C P (draw_conflicts ui paths)
    unfolding draw_conflicts
    KeepsFrame-draw_conflicts paths =
        search
          (
            keeps_frame, KeepsFrame-select_conflict_file, keeps_forms, keeps_buttons,
            Keeps-load_in_diff_panel, KeepsFrame-draw_line_editor, KeepsFrame-one_side,
          )
          depth 40 fits 9000

    KeepsFrame-draw_merge_panel : KeepsFrame C P (draw_merge_panel ui)
    unfolding draw_merge_panel
    KeepsFrame-draw_merge_panel =
        search
          (keeps_frame, keeps_buttons, KeepsFrame-draw_operation_buttons, KeepsFrame-draw_conflicts)
          depth 40 fits 9000

    KeepsFrame-draw_cli_row : KeepsFrame C P (draw_cli_row ui)
    unfolding draw_cli_row
    KeepsFrame-draw_cli_row = record {
      at = λ fr w h.
          (KeepsFrame-run_all _ (
              AllKeep-cons _ _ (search keeps_frame) (
                AllKeep-cons _ _ (search keeps_frame) (
                  AllKeep-cons _ _ (search (keeps_frame, keeps_forms))
                    (AllKeep-cons _ _ (search keeps_frame) (AllKeep-nil S C P)))))).at
            fr w h;
    }

    KeepsFrame-draw_bottom_panel : KeepsFrame C P (draw_bottom_panel ui)
    unfolding draw_bottom_panel draw_cli_input_panel
    KeepsFrame-draw_bottom_panel = search (keeps_frame, KeepsFrame-draw_cli_row) depth 20

    KeepsFrame-draw_middle_tab_selector : KeepsFrame C P (draw_middle_tab_selector ui)
    unfolding draw_middle_tab_selector
    KeepsFrame-draw_middle_tab_selector = search keeps_frame depth 20

    KeepsFrame-draw_tab : (tab : MiddleTab) → KeepsFrame C P (draw_tab ui tab)
    unfolding draw_tab draw_staging_tab draw_advanced_tab draw_collaboration_tab
    KeepsFrame-draw_tab staging =
        search
          (
            keeps_frame, KeepsFrame-draw_repo_panel, KeepsFrame-draw_git_panel,
            KeepsFrame-draw_diff_panel,
          )
          depth 20
    KeepsFrame-draw_tab advanced =
        search
          (
            keeps_frame, KeepsFrame-draw_history_panel, KeepsFrame-draw_merge_panel,
            KeepsFrame-draw_branch_graph_panel,
          )
          depth 20
    KeepsFrame-draw_tab collaboration =
        search
          (
            keeps_frame, KeepsFrame-draw_node_panel, KeepsFrame-draw_consensus_config_panel,
            KeepsFrame-draw_actions_panel, KeepsFrame-draw_proposals_panel,
            KeepsFrame-draw_pending_panel, KeepsFrame-draw_ops_panel,
          )
          depth 20

    KeepsFrame-draw_window : KeepsFrame C P (draw_window ui)
    unfolding draw_window
    KeepsFrame-draw_window =
        search
          (
            keeps_frame, KeepsFrame-draw_top_controls, KeepsFrame-draw_bottom_panel,
            KeepsFrame-draw_middle_tab_selector, KeepsFrame-draw_tab,
          )
          depth 20

    update_frame-keeps :
        (start : Frame S) (w : S.World)
        → Unless C (refresh_period S start.app)
        → P start.app.merge_form.editor
        → LeavesFrame C P (update_frame ui start w)
    unfolding update_frame run_all act
    update_frame-keeps start w runs h =
        let refreshed = refresh_when_due-keeps start.app w runs h in
        elim (Option-cases (refresh_when_due S start.app w)) [
          | inl e ↦ rw (update_frame, run_all, act, e) (rw e at refreshed)
          | inr ((app, w'), e) ↦
              rw (update_frame, run_all, act, e)
                ((KeepsFrame-run_all _
                    (AllKeep-cons _ _ KeepsFrame-draw_window (AllKeep-nil S C P))).at
                  (record start { app = app }) w' (rw e at refreshed))
        ]

    -- A frame keeps the property, unless the period of its refreshes cannot be taken.
    pub update-keeps :
        (app : VcsGuiApp S) (w : S.World)
        → Unless C (refresh_period S app)
        → P app.merge_form.editor
        → Leaves C P (update ui app w)
    unfolding update
    update-keeps app w runs h =
        let start : Frame S = record { app = app; items = [] } in
        let after = update_frame-keeps start w runs h in
        elim (Option-cases (update_frame ui start w)) [
          | inl e ↦ rw (update, e) (rw e at after)
          | inr ((fr, w'), e) ↦ rw (update, e) (rw e at after)
        ]
