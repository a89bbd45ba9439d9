-- ===== src/Draw/Repo.antt =====
-- The panels about the repository: `draw_top_controls`, `draw_repo_panel`, `draw_git_panel`,
-- `draw_diff_panel` and `draw_branch_graph_panel` of gui/src/main.rs.
use dqrvcs.Prelude.{
  true, false, List, [], ◌∷◌, if◌then◌else◌, is_empty, map, length, Option, none, some,
}
use dqrvcs.Text.{Text, codes}
use dqrvcs.Text.Trim.{is_blank}
use dqrvcs.Text.Bytes.{show_nat}
use dqrvcs.Status.{StatusEntry}
use dqrvcs.System.{System}
use dqrvcs.App.{VcsGuiApp}
use dqrvcs.App.Refresh.{refresh, refresh_diff_output}
use dqrvcs.App.Handlers.{
  on_stage_all, on_unstage_all, on_stage_file, on_unstage_file, on_commit, on_amend, on_checkout,
  on_revert, on_pull, on_push, on_squash,
}
use dqrvcs.Draw.{
  Ui, Panel, add, heading, label, strong, monospace, field, colored, run_all, observe, either,
  paint, act, on_click, choose_value, combo_box, text_edit, checkbox, with_git,
}
use dqrvcs.Draw.Labels.{short_hash, non_empty, format}

-- `if let Some(err) = &self.load_error { .. }`
abbrev pub show_error : {S : System} → Option Text → Panel S
show_error none = run_all []
show_error (some e) = paint (colored 255 120 120) e

-- One `selectable_value` for each changed file.
unfoldable pub file_choices : {S : System} → Ui S → List StatusEntry → List (Panel S)
file_choices ui [] = []
file_choices {S} ui (entry ∷ rest) =
    choose_value ui (format (non_empty entry.code ∷ codes " " ∷ entry.path ∷ []))
      (with_git (λ g. record g { selected_diff_file = entry.path })) (act (refresh_diff_output S))
    ∷ file_choices ui rest

module _ {S : System} where
  unfoldable pub draw_repo_panel : Panel S
  draw_repo_panel = observe (λ app.
      let repo = app.app_data.repo in
      run_all (
        paint heading (codes "Repository")
        ∷ paint label (format (codes "Branch: " ∷ non_empty repo.branch ∷ []))
        ∷ paint label (
            format (
              codes "HEAD: "
              ∷ (if is_blank repo.head then codes "(no commits yet)" else short_hash repo.head)
              ∷ []))
        ∷ paint label
            (format (codes "Working tree changes: " ∷ show_nat (length repo.status_lines) ∷ []))
        ∷ either (is_empty repo.status_lines) (paint label (codes "clean"))
            (run_all (map (paint monospace) repo.status_lines))
        ∷ []))

  unfoldable pub draw_branch_graph_panel : Panel S
  draw_branch_graph_panel = run_all (
      paint heading (codes "Branch Graph")
      ∷ observe (λ app. paint field app.app_data.repo.branch_graph)
      ∷ [])

module _ {S : System} (ui : Ui S) where
  -- `DragValue` over the period. Its range, from 1 to 60, is left out: any value may be left.
  unfoldable pub drag_period : Panel S
  drag_period fr w =
      let app = fr.app in
      let period = ui.dragged (length fr.items) app.refresh_every_sec in
      some (
        add field (codes "every s") (record fr { app = record app { refresh_every_sec = period } }),
        w,
      )

  unfoldable pub draw_top_controls : Panel S
  unfolding drag_period
  draw_top_controls = run_all (
      paint label (codes "Repository")
      ∷ text_edit ui VcsGuiApp.repo_path (λ t app. record app { repo_path = t })
      ∷ paint label (codes "vcs binary")
      ∷ text_edit ui VcsGuiApp.vcs_binary (λ t app. record app { vcs_binary = t })
      ∷ on_click ui (codes "Refresh") (act (refresh S))
      ∷ checkbox ui (codes "Auto refresh") VcsGuiApp.auto_refresh
          (λ b app. record app { auto_refresh = b })
      ∷ drag_period
      ∷ observe (λ app. show_error app.load_error)
      ∷ [])

  unfoldable pub draw_git_panel : Panel S
  unfolding file_choices
  draw_git_panel = observe (λ start.
      let status_entries = start.app_data.repo.status_entries in
      let selected_diff = start.git_form.selected_diff_file in
      run_all (
        paint heading (codes "Git Operations")
        ∷ on_click ui (codes "Stage all") (act (on_stage_all S))
        ∷ on_click ui (codes "Unstage all") (act (on_unstage_all S))
        ∷ either (is_empty status_entries) (paint label (codes "Working tree is clean")) (
            run_all (
              combo_box ui (codes "File") (non_empty selected_diff) (file_choices ui status_entries)
              ∷ on_click ui (codes "Stage file") (act (on_stage_file S))
              ∷ on_click ui (codes "Unstage file") (act (on_unstage_file S))
              ∷ []))
        ∷ paint label (codes "Commit message")
        ∷ text_edit ui (λ app. app.git_form.commit_message)
            (λ t. with_git (λ g. record g { commit_message = t }))
        ∷ on_click ui (codes "Commit") (act (on_commit S false))
        ∷ on_click ui (codes "Commit all") (act (on_commit S true))
        ∷ on_click ui (codes "Amend") (act (on_amend S))
        ∷ paint label (codes "Checkout target")
        ∷ text_edit ui (λ app. app.git_form.checkout_target)
            (λ t. with_git (λ g. record g { checkout_target = t }))
        ∷ on_click ui (codes "Checkout") (act (on_checkout S))
        ∷ paint label (codes "Revert commit")
        ∷ text_edit ui (λ app. app.git_form.revert_target)
            (λ t. with_git (λ g. record g { revert_target = t }))
        ∷ on_click ui (codes "Revert") (act (on_revert S false))
        ∷ on_click ui (codes "Revert (--no-commit)") (act (on_revert S true))
        ∷ on_click ui (codes "Pull") (act (on_pull S))
        ∷ on_click ui (codes "Push") (act (on_push S false))
        ∷ on_click ui (codes "Push immediate") (act (on_push S true))
        ∷ paint strong (codes "Squash")
        ∷ paint label (codes "Last")
        ∷ text_edit ui (λ app. app.git_form.squash_last)
            (λ t. with_git (λ g. record g { squash_last = t }))
        ∷ paint label (codes "From")
        ∷ text_edit ui (λ app. app.git_form.squash_from)
            (λ t. with_git (λ g. record g { squash_from = t }))
        ∷ checkbox ui (codes "Allow dirty") (λ app. app.git_form.squash_allow_dirty)
            (λ b. with_git (λ g. record g { squash_allow_dirty = b }))
        ∷ paint label (codes "Message")
        ∷ text_edit ui (λ app. app.git_form.squash_message)
            (λ t. with_git (λ g. record g { squash_message = t }))
        ∷ on_click ui (codes "Squash") (act (on_squash S))
        ∷ []))

  unfoldable pub draw_diff_panel : Panel S
  draw_diff_panel = run_all (
      paint heading (codes "Diff")
      ∷ choose_value ui (codes "Working tree")
          (with_git (λ g. record g { show_staged_diff = false })) (act (refresh_diff_output S))
      ∷ choose_value ui (codes "Staged") (with_git (λ g. record g { show_staged_diff = true }))
          (act (refresh_diff_output S))
      ∷ on_click ui (codes "Reload diff") (act (refresh_diff_output S))
      ∷ observe (λ app. paint label (
          format (
            codes "Scope: "
            ∷ (if is_blank app.git_form.selected_diff_file
                then codes "all changed files"
                else app.git_form.selected_diff_file)
            ∷ [])))
      ∷ observe (λ app. paint field app.diff_output)
      ∷ [])
