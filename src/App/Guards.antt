-- ===== src/App/Guards.antt =====
-- Which commands the handlers of gui/src/main.rs let through: `run_cli_input_command`,
-- `on_run_reset`, the rebase todo's handlers, `save_conflict_editor_to_file` and `on_add_peer`.
use dqrvcs.Prelude.{
  true, false, List, [], ◌∷◌, ◌++◌, ◌≡◌, refl, ap, ◌⊎◌, inl, inr, arith, is_empty, if◌then◌else◌,
  Bool-cases, some, Result, ok, err,
}
use dqrvcs.Text.{Text, codes, eqb, eqb_iff, starts_with}
use dqrvcs.Text.Trim.{trim, is_blank, trim-trim}
use dqrvcs.Args.{is_hard, as_str, build_reset_args}
use dqrvcs.Cli.{parse_cli_tokens, is_allowed_vcs_command}
use dqrvcs.Todo.{validate_rebase_todo_text}
use dqrvcs.Act.{ret, lift, then_do, ◌>>=◌, ◌>>◌}
use dqrvcs.System.{System}
use dqrvcs.Binary.{resolve_vcs_binary}
use dqrvcs.App.{VcsGuiApp, Method, say}
use dqrvcs.App.Run.{run_vcs_command, run_command, run_command_with_env, run_git_command}
use dqrvcs.App.Editor.{take_editor, save_conflict_editor_to_file}
use dqrvcs.App.Todo.{
  write_valid_todo, save_current_rebase_todo, prepare_rebase, start_interactive_rebase_from_todo,
}
use dqrvcs.App.Handlers.{
  enter_command, not_allowed, drop_vcs, run_cli_tokens, run_cli_input_command, on_run_reset,
}
use dqrvcs.App.Collaboration.{on_add_peer}

trim_nil : trim [] ≡ []
unfolding trim
trim_nil = refl

module _ (S : System) where
  -- The method only shows a message: it runs nothing and leaves the world.
  abbrev pub OnlySays : Method S → VcsGuiApp S → S.World → Type 0
  OnlySays method app w = (message : Text) × (method app w ≡ say S message app w)

  -- The tokens are this command, with or without the word `vcs` in front.
  abbrev pub IsTyped : List Text → Text → List Text → Type 0
  IsTyped tokens command rest = (tokens ≡ command ∷ rest) ⊎ (tokens ≡ codes "vcs" ∷ command ∷ rest)

  drop_vcs-IsTyped :
      (tokens : List Text) (command : Text) (rest : List Text)
      → drop_vcs tokens ≡ command ∷ rest
      → IsTyped tokens command rest
  unfolding drop_vcs
  drop_vcs-IsTyped [] command rest e = inl e
  drop_vcs-IsTyped (t ∷ ts) command rest e = elim (Bool-cases (eqb t (codes "vcs"))) [
    | inl b ↦ inr (rw ((eqb_iff t (codes "vcs")).0 b) (ap (λ us. codes "vcs" ∷ us) (rw b at e)))
    | inr b ↦ inl (rw b at e)
  ]

  run_cli_tokens-allowed :
      (tokens : List Text) (app : VcsGuiApp S) (w : S.World)
      → OnlySays (run_cli_tokens S tokens) app w
        ⊎ ((command : Text) × (rest : List Text) × (tokens ≡ command ∷ rest)
            × (is_allowed_vcs_command command ≡ true)
            × (run_cli_tokens S tokens app w ≡ run_vcs_command S (command ∷ rest) app w))
  unfolding run_cli_tokens
  run_cli_tokens-allowed [] app w = inl (enter_command, refl)
  run_cli_tokens-allowed (command ∷ rest) app w = elim (Bool-cases (is_empty command)) [
    | inl e ↦ inl (enter_command, rw e refl)
    | inr e ↦ elim (Bool-cases (is_allowed_vcs_command command)) [
      | inl a ↦ inr (command, rest, refl, a, rw (e, a) refl)
      | inr a ↦ inl (not_allowed S command, rw (e, a) refl)
    ]
  ]

  parsed-allowed :
      (parsed : Result (List Text)) (app : VcsGuiApp S) (w : S.World)
      → parse_cli_tokens (trim app.cli_input) ≡ parsed
      → is_empty (trim app.cli_input) ≡ false
      → OnlySays (run_cli_input_command S) app w
        ⊎ ((command : Text) × (rest : List Text) × (tokens : List Text) × (parse_cli_tokens
                (trim app.cli_input)
              ≡ ok tokens)
            × IsTyped tokens command rest
            × (is_allowed_vcs_command command ≡ true)
            × (run_cli_input_command S app w ≡ run_vcs_command S (command ∷ rest) app w))
  unfolding run_cli_input_command
  parsed-allowed (err message) app w e filled = inl (message, rw (filled, e) refl)
  parsed-allowed (ok []) app w e filled = inl (enter_command, rw (filled, e) refl)
  parsed-allowed (ok (t ∷ ts)) app w e filled =
      elim (run_cli_tokens-allowed (drop_vcs (t ∷ ts)) app w) [
        | inl (message, same) ↦ inl (message, rw (filled, e) same)
        | inr (command, rest, tokens_are, allowed, same) ↦ inr (
          command,
          rest,
          t ∷ ts,
          e,
          drop_vcs-IsTyped (t ∷ ts) command rest tokens_are,
          allowed,
          rw (filled, e) same,
        )
      ]

  -- A command line either runs nothing and leaves a message, or runs `vcs` with the tokens it
  -- parses to, less a first `vcs`, and then the command is one of the allowed ones.
  pub run_cli_input_command-allowed :
      (app : VcsGuiApp S) (w : S.World)
      → OnlySays (run_cli_input_command S) app w
        ⊎ ((command : Text) × (rest : List Text) × (tokens : List Text) × (parse_cli_tokens
                (trim app.cli_input)
              ≡ ok tokens)
            × IsTyped tokens command rest
            × (is_allowed_vcs_command command ≡ true)
            × (run_cli_input_command S app w ≡ run_vcs_command S (command ∷ rest) app w))
  unfolding run_cli_input_command
  run_cli_input_command-allowed app w = elim (Bool-cases (is_empty (trim app.cli_input))) [
    | inl e ↦ inl (enter_command, rw e refl)
    | inr e ↦ parsed-allowed (parse_cli_tokens (trim app.cli_input)) app w refl e
  ]

  -- A reset either only shows a message or runs `git reset` with the mode and the trimmed target,
  -- and in the second case the hard mode was confirmed.
  pub on_run_reset-confirmed :
      (app : VcsGuiApp S) (w : S.World)
      → OnlySays (on_run_reset S) app w
        ⊎ ((is_hard app.history_form.reset_mode ≡ true → app.history_form.confirm_hard_reset ≡ true)
            × (on_run_reset S app w
                ≡ run_git_command S
                    (codes "reset"
                      ∷ as_str app.history_form.reset_mode
                      ∷ trim app.history_form.reset_target
                      ∷ [])
                    app
                    w))
  unfolding on_run_reset build_reset_args
  on_run_reset-confirmed app w =
      let form = app.history_form in
      elim (Bool-cases (is_empty (trim form.reset_target))) [
        | inl e ↦ inl (codes "Reset target cannot be empty", rw (trim-trim, e) refl)
        | inr e ↦ elim (Bool-cases (is_hard form.reset_mode)) [
          | inr h ↦ inr ((λ k. grind arith), rw (trim-trim, e, h) refl)
          | inl h ↦ elim (Bool-cases form.confirm_hard_reset) [
            | inl c ↦ inr ((λ k. c), rw (trim-trim, e, h, c) refl)
            | inr c ↦
                inl (codes "Confirm hard reset before running it", rw (trim-trim, e, h, c) refl)
          ]
        ]
      ]

  -- A todo text that does not validate is neither saved nor used for a rebase: saving it only shows
  -- the validation's error, and starting a rebase with it only shows that error, or, with a blank
  -- rebase target, that the target is empty. The world stays as it was.
  pub rebase_todo-IsInvalid :
      (app : VcsGuiApp S) (w : S.World) (e : Text)
      → validate_rebase_todo_text app.history_form.rebase_todo_text ≡ err e
      → (save_current_rebase_todo S app w ≡ say S e app w)
        × (start_interactive_rebase_from_todo S app w
            ≡ say S
                (if is_empty (trim app.history_form.rebase_onto)
                  then codes "Rebase target cannot be empty"
                  else e)
                app
                w)
  unfolding save_current_rebase_todo write_valid_todo start_interactive_rebase_from_todo
      prepare_rebase ◌>>◌ ◌>>=◌ lift then_do
  rebase_todo-IsInvalid app w e bad = (
    rw (save_current_rebase_todo, write_valid_todo, bad) refl,
    elim (Bool-cases (is_empty (trim app.history_form.rebase_onto))) [
      | inl blank ↦ rw (start_interactive_rebase_from_todo, blank) refl
      | inr filled ↦ rw (start_interactive_rebase_from_todo, prepare_rebase, filled, bad) refl
    ],
  )

  -- After a load of a conflict file that failed with a message that is not blank, a save only shows
  -- a message and leaves the world as it was.
  pub save-take_editor :
      (app : VcsGuiApp S) (w : S.World) (selected e : Text)
      → is_blank e ≡ false
      → OnlySays (save_conflict_editor_to_file S) (take_editor S selected (err e) app) w
  unfolding save_conflict_editor_to_file take_editor
  save-take_editor app w selected e filled = elim (Bool-cases (is_empty (trim selected))) [
    | inl none_selected ↦
        (codes "Load a conflict file into the editor first", rw none_selected refl)
    | inr some_selected ↦ (
      codes "Cannot save while conflict parser has errors: " ++ e,
      rw (some_selected, filled) refl,
    )
  ]

  -- With no `vcs` binary set and a peer URL typed, adding the peer runs nothing, and still clears
  -- the URL.
  pub on_add_peer-nothing_runs :
      (app : VcsGuiApp S) (w : S.World)
      → is_empty (trim app.vcs_binary) ≡ true
      → is_empty (trim app.peer_form.peer_url) ≡ false
      → on_add_peer S app w
        ≡ some (
          record app {
            action_output = codes "Both repository path and vcs binary must be set.";
            peer_form = record { peer_url = [] };
          },
          w,
        )
  unfolding on_add_peer run_vcs_command run_command run_command_with_env resolve_vcs_binary codes
      starts_with ret
  on_add_peer-nothing_runs app w no_binary typed = rw (typed, trim-trim, no_binary, trim_nil) refl
