-- ===== src/App/Todo.antt =====
-- Interactive rebase: `generate_rebase_todo_text`, `load_current_rebase_todo`,
-- `save_current_rebase_todo` and `start_interactive_rebase_from_todo`.
use dqrvcs.Prelude.{[], ◌∷◌, ◌++◌, if◌then◌else◌, is_empty, none, some, ok, err}
use dqrvcs.Text.{Text, codes}
use dqrvcs.Text.Trim.{trim}
use dqrvcs.Paths.{FilePath}
use dqrvcs.Args.{build_interactive_rebase_args}
use dqrvcs.Todo.{validate_rebase_todo_text}
use dqrvcs.Act.{Act, ret, lift, ◌>>=◌, ◌>>◌}
use dqrvcs.System.{System}
use dqrvcs.Files.{
  build_rebase_todo_text, read_current_rebase_todo, write_current_rebase_todo,
  write_temp_rebase_todo, write_sequence_editor_script,
}
use dqrvcs.App.{Method, say}
use dqrvcs.App.Run.{run_git_command_with_env}

module _ (S : System) where
  unfoldable pub generate_rebase_todo_text : Method S
  generate_rebase_todo_text app w =
      let onto = trim app.history_form.rebase_onto in
      if is_empty onto
      then say S (codes "Rebase target cannot be empty") app w
      else elim (build_rebase_todo_text S (trim app.repo_path) onto w) [
        | none ↦ none
        | some (err e, w') ↦ say S e app w'
        | some (ok todo, w') ↦ some (
          record app {
            history_form = record (app.history_form) {
              rebase_todo_text = todo;
              rebase_todo_info = codes "Generated todo list for range " ++ (onto ++ codes "..HEAD");
            };
            action_output = codes "Rebase todo generated";
          },
          w',
        )
      ]

  unfoldable pub load_current_rebase_todo : Method S
  load_current_rebase_todo app w = elim (read_current_rebase_todo S (trim app.repo_path) w) [
    | none ↦ none
    | some (err e, w') ↦ say S e app w'
    | some (ok (path, todo), w') ↦ some (
      record app {
        history_form = record (app.history_form) {
          rebase_todo_text = todo;
          rebase_todo_info = codes "Loaded " ++ path;
        };
        action_output = codes "Loaded active rebase todo";
      },
      w',
    )
  ]

  -- `validate(..).and_then(|_| write(..))`
  unfoldable pub write_valid_todo : FilePath → Text → Act S.World FilePath
  write_valid_todo repo todo = do
    lift (validate_rebase_todo_text todo)
    write_current_rebase_todo S repo todo

  unfoldable pub save_current_rebase_todo : Method S
  unfolding write_valid_todo
  save_current_rebase_todo app w =
      elim (write_valid_todo (trim app.repo_path) app.history_form.rebase_todo_text w) [
        | none ↦ none
        | some (err e, w') ↦ say S e app w'
        | some (ok path, w') ↦ some (
          record app {
            history_form = record (app.history_form) { rebase_todo_info = codes "Saved " ++ path };
            action_output = codes "Saved active rebase todo";
          },
          w',
        )
      ]

  -- The two files that the rebase is started with: the todo list and the editor script.
  unfoldable pub prepare_rebase : FilePath → Text → Act S.World (FilePath × FilePath)
  prepare_rebase repo todo = do
    lift (validate_rebase_todo_text todo)
    todo_temp ← write_temp_rebase_todo S todo
    editor_script ← write_sequence_editor_script S repo
    ret (todo_temp, editor_script)

  -- The arguments are built, and git is run with the two files in its environment.
  unfoldable pub run_rebase_with : FilePath → FilePath → Text → Method S
  run_rebase_with todo_temp editor_script onto app w =
      let form = app.history_form in
      elim (build_interactive_rebase_args onto form.rebase_autosquash form.rebase_autostash
        form.rebase_merges) [
          | err e ↦ say S e app w
          | ok args ↦
              run_git_command_with_env S args
                ((codes "GIT_SEQUENCE_EDITOR", editor_script)
                  ∷ (codes "VCS_GUI_REBASE_TODO", todo_temp)
                  ∷ [])
                (codes "interactive rebase") app w
        ]

  unfoldable pub start_interactive_rebase_from_todo : Method S
  unfolding prepare_rebase run_rebase_with
  start_interactive_rebase_from_todo app w =
      let onto = trim app.history_form.rebase_onto in
      if is_empty onto
      then say S (codes "Rebase target cannot be empty") app w
      else elim (prepare_rebase (trim app.repo_path) app.history_form.rebase_todo_text w) [
        | none ↦ none
        | some (err e, w') ↦ say S e app w'
        | some (ok (todo_temp, editor_script), w') ↦
            run_rebase_with todo_temp editor_script onto app w'
      ]
