-- ===== src/App/Editor.antt =====
-- The conflict editor's buttons: `load_selected_conflict_editor`, `save_conflict_editor_to_file`,
-- and the two that choose a side for all hunks (`draw_merge_panel`).
use dqrvcs.Prelude.{false, not, [], ◌++◌, if◌then◌else◌, is_empty, none, some, Result, ok, err}
use dqrvcs.Text.{Text, codes}
use dqrvcs.Text.Trim.{trim, is_blank}
use dqrvcs.Conflict.{
  ConflictLineSource, ConflictEditorState, compose_conflict_editor_output,
  apply_conflict_choice_to_all_hunks,
}
use dqrvcs.Act.{Act, ◌>>=◌}
use dqrvcs.System.{System}
use dqrvcs.Files.{resolve_repo_relative_path, load_conflict_editor_state, write_file}
use dqrvcs.App.{VcsGuiApp, Method, say}
use dqrvcs.App.Refresh.{refresh}

module _ (S : System) where
  -- The two arms of `load_selected_conflict_editor`.
  unfoldable pub take_editor : Text → Result ConflictEditorState → VcsGuiApp S → VcsGuiApp S
  take_editor selected (ok editor) app = record app {
    merge_form = record (app.merge_form) { editor = editor };
    action_output = codes "Loaded conflict editor for " ++ selected;
  }
  take_editor selected (err e) app = record app {
    merge_form = record (app.merge_form) {
      editor = record { file_path = selected; sections = []; parse_error = e };
    };
    action_output = e;
  }

  unfoldable pub load_selected_conflict_editor : Method S
  unfolding take_editor
  load_selected_conflict_editor app w =
      let selected = trim app.merge_form.selected_conflict_file in
      if is_empty selected
      then say S (codes "Select a conflict file first") app w
      else elim (load_conflict_editor_state S (trim app.repo_path) selected w) [
        | none ↦ none
        | some (r, w') ↦ some (take_editor selected r app, w')
      ]

  -- The file that is saved, with the text that the sections compose to.
  unfoldable pub write_sections : VcsGuiApp S → Text → Act S.World (Unit {0})
  write_sections app file_path = do
    absolute_path ← resolve_repo_relative_path S (trim app.repo_path) file_path
    write_file S absolute_path (compose_conflict_editor_output app.merge_form.editor.sections)

  unfoldable pub finish_save : Text → Result (Unit {0}) → Method S
  finish_save file_path (ok _) app = refresh S (record app {
    action_output = codes "Wrote resolved content to " ++ file_path;
    git_form = record (app.git_form) { selected_diff_file = file_path; show_staged_diff = false };
  })
  finish_save file_path (err e) app = say S e app

  unfoldable pub save_conflict_editor_to_file : Method S
  unfolding write_sections finish_save
  save_conflict_editor_to_file app w =
      let file_path = trim app.merge_form.editor.file_path in
      if is_empty file_path
      then say S (codes "Load a conflict file into the editor first") app w
      else if not (is_blank app.merge_form.editor.parse_error)
      then say S
          (codes "Cannot save while conflict parser has errors: "
            ++ app.merge_form.editor.parse_error)
          app w
      else elim (write_sections app file_path w) [
        | none ↦ none
        | some (r, w') ↦ finish_save file_path r app w'
      ]

  unfoldable pub use_side_for_all_hunks : ConflictLineSource → VcsGuiApp S → VcsGuiApp S
  use_side_for_all_hunks source app =
      let editor = app.merge_form.editor in
      record app {
        merge_form = record (app.merge_form) {
          editor = record editor {
            sections = apply_conflict_choice_to_all_hunks editor.sections source;
          };
        };
      }
