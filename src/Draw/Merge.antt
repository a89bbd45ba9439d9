-- ===== src/Draw/Merge.antt =====
-- `draw_merge_panel` of gui/src/main.rs.
use dqrvcs.Prelude.{
  ℕ, suc, ◌+◌, ◌&&◌, Bool, false, not, ◌||◌, List, [], ◌∷◌, if◌then◌else◌, is_empty, length,
}
use dqrvcs.Text.{Text, codes}
use dqrvcs.Text.Trim.{trim, is_blank}
use dqrvcs.Text.Bytes.{show_nat}
use dqrvcs.Conflict.{ours, theirs}
use dqrvcs.System.{System}
use dqrvcs.App.{Method, say}
use dqrvcs.App.Refresh.{refresh_diff_output}
use dqrvcs.App.Run.{run_git_command_static}
use dqrvcs.App.Editor.{
  load_selected_conflict_editor, save_conflict_editor_to_file, use_side_for_all_hunks,
}
use dqrvcs.App.Handlers.{
  on_start_merge, on_resolve_conflict_with_side, on_mark_conflict_resolved_add, on_commit_merge,
}
use dqrvcs.Draw.{
  Ui, Panel, heading, label, strong, colored, run_all, observe, when, either, paint, act, assign,
  on_click, button_enabled, choose_value, combo_box, text_edit, with_git, with_merge,
}
use dqrvcs.Draw.Hunks.{draw_sections}
use dqrvcs.Draw.Labels.{non_empty, format}

-- "Load in Diff panel": the selected conflict file becomes the file of the diff.
unfoldable pub load_in_diff_panel : (S : System) → Method S
load_in_diff_panel S app w =
    let selected = trim app.merge_form.selected_conflict_file in
    if is_empty selected
    then say S (codes "Select a conflict file first") app w
    else refresh_diff_output S
        (with_git (λ g. record g { selected_diff_file = selected; show_staged_diff = false }) app) w

module _ {S : System} (ui : Ui S) where
  -- One `selectable_value` for each conflict file.
  unfoldable pub conflict_choices : List Text → List (Panel S)
  conflict_choices [] = []
  conflict_choices (path ∷ rest) =
      choose_value ui path (with_merge (λ m. record m { selected_conflict_file = path }))
        (run_all [])
      ∷ conflict_choices rest

  -- Some choice of these, which start at the number `k`, was changed.
  unfoldable pub any_changed : ℕ → List Text → Bool
  any_changed k [] = false
  any_changed k (path ∷ rest) = ui.changed k || any_changed (suc k) rest

  unfoldable pub select_conflict_file : List Text → Panel S
  unfolding conflict_choices any_changed
  select_conflict_file paths fr w =
      let k = length fr.items in
      let selected_changed = ui.opened k && any_changed (k + 2) paths in
      run_all
        (combo_box ui (codes "Conflict file") (non_empty fr.app.merge_form.selected_conflict_file)
            (conflict_choices paths)
          ∷ when selected_changed (act (load_selected_conflict_editor S))
          ∷ [])
        fr w

  unfoldable pub draw_operation_buttons : Panel S
  draw_operation_buttons = run_all (
      observe (λ app.
        let repo = app.app_data.repo in
        button_enabled ui (repo.merge_in_progress || repo.rebase_in_progress) (codes "Continue") (
          observe (λ now.
            either now.app_data.repo.merge_in_progress
              (act (run_git_command_static S ("merge" ∷ "--continue" ∷ [])))
              (act (run_git_command_static S ("rebase" ∷ "--continue" ∷ []))))))
      ∷ observe (λ app.
        button_enabled ui app.app_data.repo.merge_in_progress (codes "Abort merge")
          (act (run_git_command_static S ("merge" ∷ "--abort" ∷ []))))
      ∷ observe (λ app.
        button_enabled ui app.app_data.repo.rebase_in_progress (codes "Abort rebase")
          (act (run_git_command_static S ("rebase" ∷ "--abort" ∷ []))))
      ∷ observe (λ app.
        button_enabled ui app.app_data.repo.cherry_pick_in_progress (codes "Abort cherry-pick")
          (act (run_git_command_static S ("cherry-pick" ∷ "--abort" ∷ []))))
      ∷ [])

  unfoldable pub draw_line_editor : Panel S
  unfolding draw_sections
  draw_line_editor = run_all (
      paint strong (codes "Line-by-line Conflict Editor")
      ∷ observe (λ app. when (not (is_blank app.merge_form.editor.parse_error)) (
          paint (colored 220 100 100)
            (format (codes "Parser error: " ∷ app.merge_form.editor.parse_error ∷ []))))
      ∷ observe (λ app.
        either (is_empty app.merge_form.editor.sections)
          (paint label (codes "Load a conflicted file to edit individual lines."))
          (run_all (
            paint label (format (codes "Editing " ∷ non_empty app.merge_form.editor.file_path ∷ []))
            ∷ draw_sections ui
            ∷ [])))
      ∷ [])

  unfoldable pub draw_conflicts : List Text → Panel S
  unfolding select_conflict_file load_in_diff_panel draw_line_editor
  draw_conflicts paths = run_all (
      select_conflict_file paths
      ∷ on_click ui (codes "Load line editor") (act (load_selected_conflict_editor S))
      ∷ on_click ui (codes "Save resolved file") (act (save_conflict_editor_to_file S))
      ∷ on_click ui (codes "Use ours for all hunks") (assign (use_side_for_all_hunks S ours))
      ∷ on_click ui (codes "Use theirs for all hunks") (assign (use_side_for_all_hunks S theirs))
      ∷ on_click ui (codes "Use ours") (act (on_resolve_conflict_with_side S (codes "--ours")))
      ∷ on_click ui (codes "Use theirs") (act (on_resolve_conflict_with_side S (codes "--theirs")))
      ∷ on_click ui (codes "Mark resolved (add)") (act (on_mark_conflict_resolved_add S))
      ∷ on_click ui (codes "Load in Diff panel") (act (load_in_diff_panel S))
      ∷ draw_line_editor
      ∷ [])

  unfoldable pub draw_merge_panel : Panel S
  unfolding draw_operation_buttons draw_conflicts
  draw_merge_panel = run_all (
      paint heading (codes "Merge + Conflict Resolution")
      ∷ paint label (codes "Merge target")
      ∷ text_edit ui (λ app. app.merge_form.merge_target)
          (λ t. with_merge (λ m. record m { merge_target = t }))
      ∷ on_click ui (codes "Start merge") (act (on_start_merge S))
      ∷ observe (λ app.
        either app.app_data.repo.merge_in_progress
          (paint (colored 250 200 100)
            (codes "Merge is in progress. Resolve conflicts then continue or abort."))
          (paint label (codes "No merge in progress")))
      ∷ observe (λ app.
        when app.app_data.repo.rebase_in_progress
          (paint (colored 250 200 100) (codes "Rebase in progress")))
      ∷ observe (λ app.
        when app.app_data.repo.cherry_pick_in_progress
          (paint (colored 250 200 100) (codes "Cherry-pick in progress")))
      ∷ draw_operation_buttons
      ∷ observe (λ app.
        paint label
          (format (codes "Conflicts: " ∷ show_nat (length app.app_data.repo.conflict_files) ∷ [])))
      ∷ observe (λ app.
        either (is_empty app.app_data.repo.conflict_files)
          (paint label (codes "No conflicted files detected"))
          (draw_conflicts app.app_data.repo.conflict_files))
      ∷ paint label (codes "Merge commit message")
      ∷ text_edit ui (λ app. app.merge_form.merge_commit_message)
          (λ t. with_merge (λ m. record m { merge_commit_message = t }))
      ∷ on_click ui (codes "Commit merge") (act (on_commit_merge S))
      ∷ [])
