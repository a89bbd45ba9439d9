-- ===== src/Draw/Idle/Frames.antt =====
-- A whole frame of gui/src/main.rs in which the user does nothing.
use dqrvcs.Prelude.{
  false, List, [], ◌∷◌, ◌≡◌, refl, inl, inr, All, Option, none, some, Option-cases,
}
use dqrvcs.Text.{Text}
use dqrvcs.Conflict.{ConflictEditorState, ConflictSection, plain, hunk}
use dqrvcs.Conflict.SameLines.{IsRechosen, rechosen-IsComplete}
use dqrvcs.System.{System}
use dqrvcs.App.{VcsGuiApp, MiddleTab, staging, advanced, collaboration}
use dqrvcs.Draw.{run_all, act}
use dqrvcs.Draw.Hunks.{draw_sections}
use dqrvcs.Draw.Hunks.Still.{edit_sections-still}
use dqrvcs.Draw.Merge.{
  select_conflict_file, draw_operation_buttons, draw_line_editor, draw_conflicts, draw_merge_panel,
}
use dqrvcs.Draw.Screen.{
  refresh_period, refresh_when_due, draw_cli_row, draw_cli_input_panel, draw_bottom_panel,
  draw_middle_tab_selector, draw_staging_tab, draw_advanced_tab, draw_collaboration_tab, draw_tab,
  draw_window, update_frame, update,
}
use dqrvcs.Draw.Reach.{Reached, IsEditable, client-IsEditable}
use dqrvcs.Draw.Idle.{
  idle, HasChoices, Still, AllStill-nil, AllStill-cons, Still-run_all, Still-text_edit, Still-paint,
  Still-on_click, Still-combo_box, never, still_rules,
}
use dqrvcs.Draw.Idle.Panels.{
  Still-draw_repo_panel, Still-draw_branch_graph_panel, Still-draw_top_controls,
  Still-draw_git_panel, Still-draw_diff_panel, Still-draw_history_panel, Still-draw_pending_panel,
  Still-draw_ops_panel, Still-draw_consensus_config_panel, Still-draw_node_panel,
  Still-draw_actions_panel, Still-draw_proposals_panel,
}

module _ (S : System) where
  Still-draw_sections : Still {S = S} (draw_sections idle)
  unfolding draw_sections
  Still-draw_sections = record {
    at = λ app items w h.
        let (items', e) = edit_sections-still S 0 app.merge_form.editor.sections items h in
        (items', rw (draw_sections, e) refl);
  }

  Still-select_conflict_file : (paths : List Text) → Still {S = S} (select_conflict_file idle paths)
  unfolding select_conflict_file
  Still-select_conflict_file paths = record {
    at = λ app items w h.
        (Still-run_all _ (
            AllStill-cons _ _ (Still-combo_box _ _ _)
              (AllStill-cons _ _ (never _) (AllStill-nil S)))).at
          app items w h;
  }

  Still-draw_operation_buttons : Still {S = S} (draw_operation_buttons idle)
  unfolding draw_operation_buttons
  Still-draw_operation_buttons = search still_rules depth 40

  Still-draw_line_editor : Still {S = S} (draw_line_editor idle)
  unfolding draw_line_editor
  Still-draw_line_editor = search (still_rules, Still-draw_sections) depth 40

  Still-draw_conflicts : (paths : List Text) → Still {S = S} (draw_conflicts idle paths)
  unfolding draw_conflicts
  Still-draw_conflicts paths =
      search (still_rules, Still-select_conflict_file, Still-draw_line_editor) depth 40 fits 9000

  Still-draw_merge_panel : Still {S = S} (draw_merge_panel idle)
  unfolding draw_merge_panel
  Still-draw_merge_panel =
      search (still_rules, Still-draw_operation_buttons, Still-draw_conflicts) depth 40 fits 9000

  Still-draw_cli_row : Still {S = S} (draw_cli_row idle)
  unfolding draw_cli_row
  Still-draw_cli_row = record {
    at = λ app items w h.
        (Still-run_all _ (
            AllStill-cons _ _ (Still-text_edit _ _ (λ a. refl)) (
              AllStill-cons _ _ (Still-paint _ _) (
                AllStill-cons _ _ (never _)
                  (AllStill-cons _ _ (Still-on_click _ _) (AllStill-nil S)))))).at
          app items w h;
  }

  Still-draw_bottom_panel : Still {S = S} (draw_bottom_panel idle)
  unfolding draw_bottom_panel draw_cli_input_panel
  Still-draw_bottom_panel = search (still_rules, Still-draw_cli_row) depth 20

  Still-draw_middle_tab_selector : Still {S = S} (draw_middle_tab_selector idle)
  unfolding draw_middle_tab_selector
  Still-draw_middle_tab_selector = search still_rules depth 20

  Still-draw_tab : (tab : MiddleTab) → Still {S = S} (draw_tab idle tab)
  unfolding draw_tab draw_staging_tab draw_advanced_tab draw_collaboration_tab
  Still-draw_tab staging =
      search (still_rules, Still-draw_repo_panel, Still-draw_git_panel, Still-draw_diff_panel) depth
        20
  Still-draw_tab advanced =
      search
        (
          still_rules, Still-draw_history_panel, Still-draw_merge_panel,
          Still-draw_branch_graph_panel,
        )
        depth 20
  Still-draw_tab collaboration =
      search
        (
          still_rules, Still-draw_node_panel, Still-draw_consensus_config_panel,
          Still-draw_actions_panel, Still-draw_proposals_panel, Still-draw_pending_panel,
          Still-draw_ops_panel,
        )
        depth 20

  Still-draw_window : Still {S = S} (draw_window idle)
  unfolding draw_window
  Still-draw_window =
      search
        (
          still_rules, Still-draw_top_controls, Still-draw_bottom_panel,
          Still-draw_middle_tab_selector, Still-draw_tab,
        )
        depth 20

  -- The state and the world as they are, unless there is no period.
  abbrev pub unless_none :
      Option S.Duration → VcsGuiApp S → S.World → Option (VcsGuiApp S × S.World)
  unless_none none app w = none
  unless_none (some period) app w = some (app, w)

  refresh_never :
      (app : VcsGuiApp S) (w : S.World)
      → app.auto_refresh ≡ false
      → refresh_when_due S app w ≡ unless_none (refresh_period S app) app w
  unfolding refresh_when_due
  refresh_never app w e = elim (Option-cases (refresh_period S app)) [
    | inl f ↦ rw (refresh_when_due, f) refl
    | inr (period, f) ↦ rw (refresh_when_due, f, e) refl
  ]

  update-still :
      (app : VcsGuiApp S) (w : S.World)
      → app.auto_refresh ≡ false
      → All HasChoices app.merge_form.editor.sections
      → update idle app w ≡ unless_none (refresh_period S app) app w
  unfolding update update_frame run_all act
  update-still app w e h =
      let (items, drawn) = Still-draw_window.at app [] w h in
      let refreshed = refresh_never app w e in
      elim (Option-cases (refresh_period S app)) [
        | inl f ↦ rw (update, update_frame, run_all, act, refreshed, f) refl
        | inr (period, f) ↦ rw (update, update_frame, run_all, act, refreshed, f, drawn) refl
      ]

  rechosen-HasChoices : (ss ts : List ConflictSection) → IsRechosen ss ts → All HasChoices ts
  rechosen-HasChoices [] [] r = tt
  rechosen-HasChoices (plain s ∷ ss) (plain t ∷ ts) r = (tt, rechosen-HasChoices ss ts r.1)
  rechosen-HasChoices (hunk h ∷ ss) (hunk k ∷ ts) r =
      (rechosen-IsComplete h k r.0, rechosen-HasChoices ss ts r.1)
  rechosen-HasChoices (plain s ∷ ss) (hunk k ∷ ts) r = absurd r.0
  rechosen-HasChoices (hunk h ∷ ss) (plain t ∷ ts) r = absurd r.0
  rechosen-HasChoices [] (t ∷ ts) r = absurd r
  rechosen-HasChoices (s ∷ ss) [] r = absurd r

  editable-HasChoices :
      (editor : ConflictEditorState) → IsEditable S editor → All HasChoices editor.sections
  editable-HasChoices editor (inl e) = rw e tt
  editable-HasChoices editor (inr h) = rechosen-HasChoices h.sections editor.sections h.rechosen

  -- In every state that the client reaches, with the automatic refresh off, a frame in which the user
  -- does nothing leaves the state and the world as they were, and panics exactly where the period of
  -- the refreshes has no duration.
  pub update-idle :
      (app : VcsGuiApp S) (w : S.World)
      → Reached S app
      → app.auto_refresh ≡ false
      → update idle app w ≡ unless_none (refresh_period S app) app w
  update-idle app w reached e =
      update-still app w e
        (editable-HasChoices app.merge_form.editor (client-IsEditable S app reached))
