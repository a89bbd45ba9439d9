-- ===== src/App/Keeps/Forms.antt =====
-- The methods of gui/src/main.rs that read or set more than one command's output keep what holds of
-- the conflict editor: those of the editor itself, of interactive rebase, of peers and the command
-- line.
use dqrvcs.Prelude.{
  Bool, true, false, List, [], ◌∷◌, ◌≡◌, refl, inl, inr, if◌then◌else◌, is_empty, Bool-cases, none,
  some, Option-cases, Result, ok, err,
}
use dqrvcs.Text.{Text, codes}
use dqrvcs.Text.Trim.{trim, is_blank}
use dqrvcs.Paths.{FilePath}
use dqrvcs.Args.{build_interactive_rebase_args}
use dqrvcs.Cli.{parse_cli_tokens, is_allowed_vcs_command}
use dqrvcs.Conflict.{ConflictEditorState, ConflictLineSource}
use dqrvcs.Files.{load_conflict_editor_state, build_rebase_todo_text, read_current_rebase_todo}
use dqrvcs.Act.Safe.{Safe, safe_rules, panicked, Safe-bind, Safe-then}
use dqrvcs.Files.Safe.{
  Safe-resolve_repo_relative_path, Safe-load_conflict_editor_state, Safe-build_rebase_todo_text,
  Safe-read_current_rebase_todo, Safe-write_current_rebase_todo, Safe-write_temp_rebase_todo,
  Safe-write_sequence_editor_script,
}
use dqrvcs.System.{System}
use dqrvcs.App.{VcsGuiApp, say}
use dqrvcs.App.Run.{run_vcs_command, run_git_command_with_env}
use dqrvcs.App.Editor.{
  take_editor, load_selected_conflict_editor, write_sections, finish_save,
  save_conflict_editor_to_file, use_side_for_all_hunks,
}
use dqrvcs.App.Todo.{
  generate_rebase_todo_text, load_current_rebase_todo, write_valid_todo, save_current_rebase_todo,
  prepare_rebase, run_rebase_with, start_interactive_rebase_from_todo,
}
use dqrvcs.App.Handlers.{drop_vcs, run_cli_tokens, run_cli_input_command}
use dqrvcs.App.Collaboration.{on_apply_consensus_config, on_add_peer, has_failed, clear_members_csv}
use dqrvcs.App.Keeps.{
  Keeps, Leaves, Closed, Keeps-refresh, Keeps-run_vcs_command, Keeps-run_git_command_with_env,
}

module _ {S : System} {C : Type 0} {P : ConflictEditorState → Type 0} (closed : Closed S C P) where
  Safe-write_sections : (app : VcsGuiApp S) (path : Text) → Safe C (write_sections S app path)
  unfolding write_sections
  Safe-write_sections app path = search (safe_rules, Safe-resolve_repo_relative_path)

  Safe-write_valid_todo : (repo : FilePath) (todo : Text) → Safe C (write_valid_todo S repo todo)
  unfolding write_valid_todo
  Safe-write_valid_todo repo todo = search (safe_rules, Safe-write_current_rebase_todo)

  Safe-prepare_rebase : (repo : FilePath) (todo : Text) → Safe C (prepare_rebase S repo todo)
  unfolding prepare_rebase
  Safe-prepare_rebase repo todo = Safe-then _ _ (search safe_rules) (
      Safe-bind _ _ (Safe-write_temp_rebase_todo S closed.nanos todo)
        (λ todo_temp. search (safe_rules, Safe-write_sequence_editor_script) depth 9))

  pub Keeps-load_selected_conflict_editor : Keeps C P (load_selected_conflict_editor S)
  unfolding load_selected_conflict_editor take_editor
  Keeps-load_selected_conflict_editor = record {
    at = λ app w h.
        let selected = trim app.merge_form.selected_conflict_file in
        elim (Bool-cases (is_empty selected)) [
          | inl e ↦ rw (load_selected_conflict_editor, e) h
          | inr e ↦
              elim (Option-cases (load_conflict_editor_state S (trim app.repo_path) selected w)) [
                | inl f ↦
                    rw (load_selected_conflict_editor, e, f)
                      (panicked (Safe-load_conflict_editor_state S _ selected) w f)
                | inr ((ok editor, w'), f) ↦
                    rw (load_selected_conflict_editor, e, f) (closed.loaded _ _ editor w w' f)
                | inr ((err message, w'), f) ↦
                    rw (load_selected_conflict_editor, e, f) (closed.failed selected message)
              ]
        ];
  }

  Keeps-finish_save : (path : Text) (r : Result (Unit {0})) → Keeps C P (finish_save S path r)
  unfolding finish_save
  Keeps-finish_save path (ok _) = record { at = λ app w h. (Keeps-refresh closed).at _ w h }
  Keeps-finish_save path (err e) = record { at = λ app w h. h }

  pub Keeps-save_conflict_editor_to_file : Keeps C P (save_conflict_editor_to_file S)
  unfolding save_conflict_editor_to_file
  Keeps-save_conflict_editor_to_file = record {
    at = λ app w h.
        let file_path = trim app.merge_form.editor.file_path in
        elim (Bool-cases (is_empty file_path)) [
          | inl e ↦ rw (save_conflict_editor_to_file, e) h
          | inr e ↦ elim (Bool-cases (is_blank app.merge_form.editor.parse_error)) [
            | inr g ↦ rw (save_conflict_editor_to_file, e, g) h
            | inl g ↦ elim (Option-cases (write_sections S app file_path w)) [
              | inl f ↦
                  rw (save_conflict_editor_to_file, e, g, f)
                    (panicked (Safe-write_sections app file_path) w f)
              | inr ((r, w'), f) ↦
                  rw (save_conflict_editor_to_file, e, g, f)
                    ((Keeps-finish_save file_path r).at app w' h)
            ]
          ]
        ];
  }

  pub use_side_for_all_hunks-keeps :
      (source : ConflictLineSource) (app : VcsGuiApp S)
      → P app.merge_form.editor
      → P (use_side_for_all_hunks S source app).merge_form.editor
  unfolding use_side_for_all_hunks
  use_side_for_all_hunks-keeps source app h = closed.one_side app.merge_form.editor source h

  pub Keeps-generate_rebase_todo_text : Keeps C P (generate_rebase_todo_text S)
  unfolding generate_rebase_todo_text
  Keeps-generate_rebase_todo_text = record {
    at = λ app w h.
        let onto = trim app.history_form.rebase_onto in
        elim (Bool-cases (is_empty onto)) [
          | inl e ↦ rw (generate_rebase_todo_text, e) h
          | inr e ↦ elim (Option-cases (build_rebase_todo_text S (trim app.repo_path) onto w)) [
            | inl f ↦
                rw (generate_rebase_todo_text, e, f)
                  (panicked (Safe-build_rebase_todo_text S _ onto) w f)
            | inr ((err message, w'), f) ↦ rw (generate_rebase_todo_text, e, f) h
            | inr ((ok todo, w'), f) ↦ rw (generate_rebase_todo_text, e, f) h
          ]
        ];
  }

  pub Keeps-load_current_rebase_todo : Keeps C P (load_current_rebase_todo S)
  unfolding load_current_rebase_todo
  Keeps-load_current_rebase_todo = record {
    at = λ app w h. elim (Option-cases (read_current_rebase_todo S (trim app.repo_path) w)) [
      | inl f ↦ rw (load_current_rebase_todo, f) (panicked (Safe-read_current_rebase_todo S _) w f)
      | inr ((err message, w'), f) ↦ rw (load_current_rebase_todo, f) h
      | inr ((ok (path, todo), w'), f) ↦ rw (load_current_rebase_todo, f) h
    ];
  }

  pub Keeps-save_current_rebase_todo : Keeps C P (save_current_rebase_todo S)
  unfolding save_current_rebase_todo
  Keeps-save_current_rebase_todo = record {
    at = λ app w h.
        elim (Option-cases
          (write_valid_todo S (trim app.repo_path) app.history_form.rebase_todo_text w)) [
            | inl f ↦ rw (save_current_rebase_todo, f) (panicked (Safe-write_valid_todo _ _) w f)
            | inr ((err message, w'), f) ↦ rw (save_current_rebase_todo, f) h
            | inr ((ok path, w'), f) ↦ rw (save_current_rebase_todo, f) h
          ];
  }

  Keeps-run_rebase_with :
      (todo_temp editor_script : FilePath) (onto : Text)
      → Keeps C P (run_rebase_with S todo_temp editor_script onto)
  unfolding run_rebase_with
  Keeps-run_rebase_with todo_temp editor_script onto = record {
    at = λ app w h.
        let form = app.history_form in
        elim (build_interactive_rebase_args onto form.rebase_autosquash form.rebase_autostash
            form.rebase_merges)
          as (λ r. Leaves C P (elim r [
            | err e ↦ say S e app w
            | ok args ↦
                run_git_command_with_env S args
                  ((codes "GIT_SEQUENCE_EDITOR", editor_script)
                    ∷ (codes "VCS_GUI_REBASE_TODO", todo_temp)
                    ∷ [])
                  (codes "interactive rebase") app w
          ])) [ err e ↦ h | ok args ↦ (Keeps-run_git_command_with_env closed args _ _).at app w h ];
  }

  pub Keeps-start_interactive_rebase_from_todo : Keeps C P (start_interactive_rebase_from_todo S)
  unfolding start_interactive_rebase_from_todo
  Keeps-start_interactive_rebase_from_todo = record {
    at = λ app w h.
        let onto = trim app.history_form.rebase_onto in
        elim (Bool-cases (is_empty onto)) [
          | inl e ↦ rw (start_interactive_rebase_from_todo, e) h
          | inr e ↦
              elim (Option-cases
                (prepare_rebase S (trim app.repo_path) app.history_form.rebase_todo_text w)) [
                  | inl f ↦
                      rw (start_interactive_rebase_from_todo, e, f)
                        (panicked (Safe-prepare_rebase _ _) w f)
                  | inr ((err message, w'), f) ↦ rw (start_interactive_rebase_from_todo, e, f) h
                  | inr ((ok (temp, script), w'), f) ↦
                      rw (start_interactive_rebase_from_todo, e, f)
                        ((Keeps-run_rebase_with temp script onto).at app w' h)
                ]
        ];
  }

  Keeps-run_cli_tokens : (tokens : List Text) → Keeps C P (run_cli_tokens S tokens)
  unfolding run_cli_tokens
  Keeps-run_cli_tokens [] = record { at = λ app w h. h }
  Keeps-run_cli_tokens (command ∷ rest) = record {
    at = λ app w h. elim (Bool-cases (is_empty command)) [
      | inl e ↦ rw (run_cli_tokens, e) h
      | inr e ↦ elim (Bool-cases (is_allowed_vcs_command command)) [
        | inr a ↦ rw (run_cli_tokens, e, a) h
        | inl a ↦
            rw (run_cli_tokens, e, a) ((Keeps-run_vcs_command closed (command ∷ rest)).at app w h)
      ]
    ];
  }

  run_parsed-keeps :
      (parsed : Result (List Text)) (app : VcsGuiApp S) (w : S.World)
      → parse_cli_tokens (trim app.cli_input) ≡ parsed
      → is_empty (trim app.cli_input) ≡ false
      → P app.merge_form.editor
      → Leaves C P (run_cli_input_command S app w)
  unfolding run_cli_input_command
  run_parsed-keeps (err message) app w e filled h = rw (run_cli_input_command, filled, e) h
  run_parsed-keeps (ok []) app w e filled h = rw (run_cli_input_command, filled, e) h
  run_parsed-keeps (ok (t ∷ ts)) app w e filled h =
      rw (run_cli_input_command, filled, e) ((Keeps-run_cli_tokens (drop_vcs (t ∷ ts))).at app w h)

  pub Keeps-run_cli_input_command : Keeps C P (run_cli_input_command S)
  unfolding run_cli_input_command
  Keeps-run_cli_input_command = record {
    at = λ app w h. elim (Bool-cases (is_empty (trim app.cli_input))) [
      | inl e ↦ rw (run_cli_input_command, e) h
      | inr e ↦ run_parsed-keeps (parse_cli_tokens (trim app.cli_input)) app w refl e h
    ];
  }

  either_state :
      (b : Bool) (x y : VcsGuiApp S)
      → P x.merge_form.editor
      → P y.merge_form.editor
      → P (if b then x else y).merge_form.editor
  either_state true x y hx hy = hx
  either_state false x y hx hy = hy

  pub Keeps-on_add_peer : Keeps C P (on_add_peer S)
  unfolding on_add_peer
  Keeps-on_add_peer = record {
    at = λ app w h.
        let peer = trim app.peer_form.peer_url in
        let args : List Text = codes "peer" ∷ codes "add" ∷ peer ∷ [] in
        let kept = (Keeps-run_vcs_command closed args).at app w h in
        elim (Bool-cases (is_empty peer)) [
          | inl e ↦ rw (on_add_peer, e) h
          | inr e ↦ elim (Option-cases (run_vcs_command S args app w)) [
            | inl f ↦ rw (on_add_peer, e, f) (rw f at kept)
            | inr ((app', w'), f) ↦
                rw (on_add_peer, e, f)
                  (either_state (has_failed S app'.action_output) app' _ (rw f at kept)
                    (rw f at kept))
          ]
        ];
  }

  applied-keeps :
      (clear : Bool) (args : Result (List Text)) (app : VcsGuiApp S) (w : S.World)
      → P app.merge_form.editor
      → Leaves C P (elim args [
        | err e ↦ say S e app w
        | ok args ↦ elim (run_vcs_command S args app w) [
          | none ↦ none
          | some (app', w') ↦ some ((if clear then clear_members_csv S app' else app'), w')
        ]
      ])
  applied-keeps clear (err e) app w h = h
  applied-keeps clear (ok args) app w h =
      let kept = (Keeps-run_vcs_command closed args).at app w h in
      elim (Option-cases (run_vcs_command S args app w)) [
        | inl f ↦ rw f (rw f at kept)
        | inr ((app', w'), f) ↦
            rw f (either_state clear (clear_members_csv S app') app' (rw f at kept) (rw f at kept))
      ]

  pub Keeps-on_apply_consensus_config :
      (clear : Bool) → Keeps C P (on_apply_consensus_config S clear)
  unfolding on_apply_consensus_config
  Keeps-on_apply_consensus_config clear = record { at = λ app w h. applied-keeps clear _ app w h }

pub ruleset keeps_forms = (
  Keeps-load_selected_conflict_editor, Keeps-save_conflict_editor_to_file,
  Keeps-generate_rebase_todo_text, Keeps-load_current_rebase_todo, Keeps-save_current_rebase_todo,
  Keeps-start_interactive_rebase_from_todo, Keeps-run_cli_input_command, Keeps-on_add_peer,
  Keeps-on_apply_consensus_config,
)
