-- ===== src/Tests/Client.antt =====
-- The client on the sample repository.
use dqrvcs.Prelude.{
  if◌then◌else◌, ℕ, true, false, List, [], ◌∷◌, ◌≡◌, ◌⊎◌, refl, Option, none, some, ok, err,
  is_empty, retain, any,
}
use dqrvcs.Text.{Text, codes, is_whitespace, starts_with, contains, eqb, byte_len}
use dqrvcs.Text.Split.{split_whitespace, split_str, lines, split_by}
use dqrvcs.Text.Bytes.{show_nat, split_at_byte}
use dqrvcs.Git.{load_repo_data, load_diff_output, run_git, git_path_exists, resolve_git_path}
use dqrvcs.Gossip.{load_gossip_data}
use dqrvcs.Status.{parse_status_entries, status_lines, parse_status_line, normalize_status_path}
use dqrvcs.Text.Trim.{trim, is_blank}
use dqrvcs.Args.{is_hard, as_str}
use dqrvcs.Cli.{parse_cli_tokens, is_allowed_vcs_command}
use dqrvcs.Todo.{validate_rebase_todo_text}
use dqrvcs.App.{VcsGuiApp, say}
use dqrvcs.App.Refresh.{refresh}
use dqrvcs.App.Run.{run_vcs_command, run_git_command}
use dqrvcs.App.Editor.{take_editor, save_conflict_editor_to_file}
use dqrvcs.App.Todo.{save_current_rebase_todo, start_interactive_rebase_from_todo}
use dqrvcs.App.Handlers.{run_cli_input_command, on_run_reset}
use dqrvcs.App.Collaboration.{on_add_peer}
use dqrvcs.App.Guards.{
  OnlySays, IsTyped, run_cli_input_command-allowed, on_run_reset-confirmed, rebase_todo-IsInvalid,
  save-take_editor, on_add_peer-nothing_runs,
}
use dqrvcs.App.Selections.{Consistent, refresh-Consistent}
use dqrvcs.Paths.{join_path, path_starts_with, components, is_component_prefix}
use dqrvcs.Files.{resolve_repo_relative_path}
use dqrvcs.Files.Inside.{IsInside, IsUnresolved, resolve_repo_relative_path-IsInside}
use dqrvcs.Act.{ret, fail, lift, call, try_call, expect, map_err, attempt, then_do, ◌>>=◌, ◌>>◌}
use dqrvcs.Tests.Sample.{tiny, client}

run_cli_input_command-allowed_example :
    OnlySays tiny (run_cli_input_command tiny) client 0
    ⊎ ((command : Text) × (rest : List Text) × (tokens : List Text) × (parse_cli_tokens
            (trim client.cli_input)
          ≡ ok tokens)
        × IsTyped tiny tokens command rest
        × (is_allowed_vcs_command command ≡ true)
        × (run_cli_input_command tiny client 0 ≡ run_vcs_command tiny (command ∷ rest) client 0))
run_cli_input_command-allowed_example = run_cli_input_command-allowed tiny client 0

on_run_reset-confirmed_example :
    OnlySays tiny (on_run_reset tiny) client 0
    ⊎ ((is_hard client.history_form.reset_mode ≡ true
          → client.history_form.confirm_hard_reset ≡ true)
        × (on_run_reset tiny client 0
            ≡ run_git_command tiny
                (codes "reset"
                  ∷ as_str client.history_form.reset_mode
                  ∷ trim client.history_form.reset_target
                  ∷ [])
                client
                0))
on_run_reset-confirmed_example = on_run_reset-confirmed tiny client 0

abbrev todo_error : Text
todo_error = codes "Invalid rebase todo command on line 2: pluck"

bad_todo : validate_rebase_todo_text client.history_form.rebase_todo_text ≡ err todo_error
unfolding codes validate_rebase_todo_text trim is_whitespace starts_with contains eqb
    split_whitespace show_nat
bad_todo = refl

rebase_todo-IsInvalid_example :
    (save_current_rebase_todo tiny client 0 ≡ say tiny todo_error client 0)
    × (start_interactive_rebase_from_todo tiny client 0
        ≡ say tiny
            (if is_empty (trim client.history_form.rebase_onto)
              then codes "Rebase target cannot be empty"
              else todo_error)
            client
            0)
rebase_todo-IsInvalid_example = rebase_todo-IsInvalid tiny client 0 todo_error bad_todo

unclosed : is_blank (codes "unclosed") ≡ false
unfolding codes trim is_whitespace
unclosed = refl

save-take_editor_example :
    OnlySays tiny
      (save_conflict_editor_to_file tiny)
      (take_editor tiny (codes "a") (err (codes "unclosed")) client)
      0
save-take_editor_example = save-take_editor tiny client 0 (codes "a") (codes "unclosed") unclosed

no_binary : is_empty (trim client.vcs_binary) ≡ true
unfolding trim
no_binary = refl

typed_peer : is_empty (trim client.peer_form.peer_url) ≡ false
unfolding codes trim is_whitespace
typed_peer = refl

on_add_peer-nothing_runs_example :
    on_add_peer tiny client 0
    ≡ some (
      record client {
        action_output = codes "Both repository path and vcs binary must be set.";
        peer_form = record { peer_url = [] };
      },
      0,
    )
on_add_peer-nothing_runs_example = on_add_peer-nothing_runs tiny client 0 no_binary typed_peer

abbrev left_by : Option (VcsGuiApp tiny × ℕ) → VcsGuiApp tiny × ℕ
left_by none = (client, 0)
left_by (some result) = result

refreshed : VcsGuiApp tiny × ℕ
refreshed = left_by (refresh tiny client 0)

-- The refresh ends, and what was selected is replaced by the file that has changed.
ends :
    (refresh tiny client 0 ≡ some (refreshed.0, refreshed.1))
    × (refreshed.0.load_error ≡ none)
    × (refreshed.0.git_form.selected_diff_file ≡ codes "a")
unfolding refreshed refresh trim codes is_whitespace load_repo_data run_git parse_status_entries
    status_lines retain lines contains eqb parse_status_line byte_len split_at_byte
    normalize_status_path starts_with split_str load_gossip_data load_diff_output any
    git_path_exists resolve_git_path ◌>>=◌ then_do ◌>>◌ attempt try_call call ret fail lift expect
    map_err
ends = (refl, refl, refl)

refresh-Consistent_example : Consistent tiny refreshed.0
refresh-Consistent_example = refresh-Consistent tiny client refreshed.0 0 refreshed.1 ends.0 ends.1

resolves :
    resolve_repo_relative_path tiny (codes "/r") (codes " a ") 0 ≡ some (ok (codes "/r/a"), 0)
unfolding resolve_repo_relative_path trim codes is_whitespace join_path path_starts_with components
    starts_with split_by retain eqb is_component_prefix ◌>>=◌ then_do attempt try_call ret
resolves = refl

resolve_repo_relative_path-IsInside_example :
    IsInside tiny (codes "/r") (codes " a ") 0 (codes "/r/a")
    ⊎ IsUnresolved tiny (codes "/r") (codes " a ") 0 (codes "/r/a")
resolve_repo_relative_path-IsInside_example =
    resolve_repo_relative_path-IsInside tiny (codes "/r") (codes " a ") 0 0 (codes "/r/a") resolves
