-- ===== src/Draw/History.antt =====
-- `draw_history_panel` of gui/src/main.rs.
use dqrvcs.Prelude.{List, [], ◌∷◌, if◌then◌else◌, is_empty}
use dqrvcs.Text.{Text, codes, eqb}
use dqrvcs.Text.Trim.{trim, is_blank}
use dqrvcs.Args.{soft, mixed, hard, label, is_hard}
use dqrvcs.History.{CommitSummary, ReflogEntry}
use dqrvcs.System.{System}
use dqrvcs.App.{HistoryForm}
use dqrvcs.App.Run.{run_git_command_static}
use dqrvcs.App.Handlers.{on_run_rebase, on_run_cherry_pick, on_run_reset}
use dqrvcs.App.Todo.{
  generate_rebase_todo_text, load_current_rebase_todo, save_current_rebase_todo,
  start_interactive_rebase_from_todo,
}
use dqrvcs.Draw
use dqrvcs.Draw.{
  Ui, Panel, Setter, heading, strong, monospace, run_all, observe, when, either, paint, act, assign,
  on_click, choose_value, combo_box, text_edit, checkbox, with_git, with_history,
}
use dqrvcs.Draw.Labels.{non_empty, format}

-- `iter().find(|commit| commit.hash == hash)`, and the text of what is found.
unfoldable pub selected_commit_label : List CommitSummary → Text → Text
selected_commit_label [] hash = non_empty hash
selected_commit_label (c ∷ cs) hash =
    if eqb c.hash hash
    then format (c.short_hash ∷ codes " " ∷ c.subject ∷ [])
    else selected_commit_label cs hash

-- "Add to cherry-pick"
unfoldable pub add_to_cherry_pick : HistoryForm → HistoryForm
add_to_cherry_pick form =
    let selected = trim form.selected_commit in
    if is_empty selected then form else record form {
      cherry_pick_refs =
          if is_blank form.cherry_pick_refs
          then selected
          else format (trim form.cherry_pick_refs ∷ codes " " ∷ selected ∷ []);
    }

-- "Use for squash --from"
unfoldable pub use_for_squash : {S : System} → Setter S
use_for_squash app =
    with_git (λ g. record g { squash_from = app.history_form.selected_commit; squash_last = [] })
      app

module _ {S : System} (ui : Ui S) where
  unfoldable pub commit_choices : List CommitSummary → List (Panel S)
  commit_choices [] = []
  commit_choices (c ∷ cs) =
      choose_value ui
        (format (
          c.short_hash
          ∷ codes " "
          ∷ c.subject
          ∷ codes " ("
          ∷ c.author
          ∷ codes ", "
          ∷ c.date
          ∷ codes ")"
          ∷ []))
        (with_history (λ h. record h { selected_commit = c.hash })) (run_all [])
      ∷ commit_choices cs

  unfoldable pub reflog_rows : List ReflogEntry → List (Panel S)
  reflog_rows [] = []
  reflog_rows (e ∷ es) =
      on_click ui (codes "Use")
        (assign (with_history (λ h. record h { reset_target = e.selector })))
      ∷ paint monospace (
          format (
            non_empty e.short_hash
            ∷ codes " "
            ∷ non_empty e.selector
            ∷ codes " "
            ∷ non_empty e.subject
            ∷ codes " "
            ∷ non_empty e.date
            ∷ []))
      ∷ reflog_rows es

  unfoldable pub draw_commit_actions : Panel S
  unfolding commit_choices selected_commit_label add_to_cherry_pick use_for_squash
  draw_commit_actions = run_all (
      paint heading (codes "Advanced History")
      ∷ observe (λ app.
        let commits = app.app_data.repo.recent_commits in
        combo_box ui (codes "Recent commit")
          (selected_commit_label commits app.history_form.selected_commit) (commit_choices commits))
      ∷ on_click ui (codes "Use for reset")
          (assign (with_history (λ h. record h { reset_target = h.selected_commit })))
      ∷ on_click ui (codes "Add to cherry-pick") (assign (with_history add_to_cherry_pick))
      ∷ on_click ui (codes "Use for squash --from") (assign use_for_squash)
      ∷ [])

  unfoldable pub draw_rebase : Panel S
  draw_rebase = run_all (
      paint strong (codes "Rebase")
      ∷ paint Draw.label (codes "Onto")
      ∷ text_edit ui (λ app. app.history_form.rebase_onto)
          (λ t. with_history (λ h. record h { rebase_onto = t }))
      ∷ checkbox ui (codes "autosquash") (λ app. app.history_form.rebase_autosquash)
          (λ b. with_history (λ h. record h { rebase_autosquash = b }))
      ∷ checkbox ui (codes "autostash") (λ app. app.history_form.rebase_autostash)
          (λ b. with_history (λ h. record h { rebase_autostash = b }))
      ∷ checkbox ui (codes "rebase-merges") (λ app. app.history_form.rebase_merges)
          (λ b. with_history (λ h. record h { rebase_merges = b }))
      ∷ on_click ui (codes "Run rebase") (act (on_run_rebase S))
      ∷ on_click ui (codes "Continue rebase")
          (act (run_git_command_static S ("rebase" ∷ "--continue" ∷ [])))
      ∷ on_click ui (codes "Abort rebase")
          (act (run_git_command_static S ("rebase" ∷ "--abort" ∷ [])))
      ∷ paint strong (codes "Interactive Rebase Todo")
      ∷ on_click ui (codes "Generate todo") (act (generate_rebase_todo_text S))
      ∷ on_click ui (codes "Load current todo") (act (load_current_rebase_todo S))
      ∷ on_click ui (codes "Save current todo") (act (save_current_rebase_todo S))
      ∷ on_click ui (codes "Start from edited todo") (act (start_interactive_rebase_from_todo S))
      ∷ observe (λ app.
        either (is_blank app.history_form.rebase_todo_info) (run_all [])
          (paint Draw.label app.history_form.rebase_todo_info))
      ∷ text_edit ui (λ app. app.history_form.rebase_todo_text)
          (λ t. with_history (λ h. record h { rebase_todo_text = t }))
      ∷ [])

  unfoldable pub draw_cherry_pick : Panel S
  draw_cherry_pick = run_all (
      paint strong (codes "Cherry-pick")
      ∷ paint Draw.label (codes "Refs")
      ∷ text_edit ui (λ app. app.history_form.cherry_pick_refs)
          (λ t. with_history (λ h. record h { cherry_pick_refs = t }))
      ∷ checkbox ui (codes "no-commit") (λ app. app.history_form.cherry_pick_no_commit)
          (λ b. with_history (λ h. record h { cherry_pick_no_commit = b }))
      ∷ on_click ui (codes "Run cherry-pick") (act (on_run_cherry_pick S))
      ∷ on_click ui (codes "Abort cherry-pick")
          (act (run_git_command_static S ("cherry-pick" ∷ "--abort" ∷ [])))
      ∷ [])

  unfoldable pub draw_reset : Panel S
  draw_reset = run_all (
      paint strong (codes "Reset HEAD")
      ∷ paint Draw.label (codes "Target")
      ∷ text_edit ui (λ app. app.history_form.reset_target)
          (λ t. with_history (λ h. record h { reset_target = t }))
      ∷ observe (λ app. combo_box ui (codes "Mode") (label app.history_form.reset_mode) (
          choose_value ui (codes "soft") (with_history (λ h. record h { reset_mode = soft }))
            (run_all [])
          ∷ choose_value ui (codes "mixed") (with_history (λ h. record h { reset_mode = mixed }))
              (run_all [])
          ∷ choose_value ui (codes "hard") (with_history (λ h. record h { reset_mode = hard }))
              (run_all [])
          ∷ []))
      ∷ observe (λ app. when (is_hard app.history_form.reset_mode) (
          checkbox ui (codes "I understand --hard discards uncommitted work")
            (λ now. now.history_form.confirm_hard_reset)
            (λ b. with_history (λ h. record h { confirm_hard_reset = b }))))
      ∷ on_click ui (codes "Run reset") (act (on_run_reset S))
      ∷ [])

  unfoldable pub draw_history_panel : Panel S
  unfolding draw_commit_actions draw_rebase draw_cherry_pick draw_reset reflog_rows
  draw_history_panel = run_all (
      draw_commit_actions
      ∷ draw_rebase
      ∷ draw_cherry_pick
      ∷ draw_reset
      ∷ paint strong (codes "Reflog")
      ∷ observe (λ app.
        either (is_empty app.app_data.repo.reflog_entries)
          (paint Draw.label (codes "No reflog entries found"))
          (run_all (reflog_rows app.app_data.repo.reflog_entries)))
      ∷ [])
