-- ===== src/Draw/Keeps/Panels.antt =====
-- The panels of gui/src/main.rs about the repository, its history and the gossip keep what holds of
-- the conflict editor.
use dqrvcs.Prelude.{List, [], ◌∷◌, Option, none, some}
use dqrvcs.Text.{Text}
use dqrvcs.Status.{StatusEntry}
use dqrvcs.Consensus.{PendingPush, Operation, ProposalView}
use dqrvcs.History.{CommitSummary, ReflogEntry}
use dqrvcs.Conflict.{ConflictEditorState}
use dqrvcs.System.{System}
use dqrvcs.App.Keeps.{Closed, Keeps-refresh, Keeps-refresh_diff_output, Keeps-run_git_command}
use dqrvcs.App.Keeps.Buttons.{keeps_buttons}
use dqrvcs.App.Keeps.Forms.{keeps_forms}
use dqrvcs.Draw.{Ui}
use dqrvcs.Draw.Keeps.{
  KeepsFrame, AllKeep, AllKeep-nil, AllKeep-cons, KeepsFrame-run_all, keeps_frame,
}
use dqrvcs.Draw.Repo.{
  file_choices, draw_repo_panel, draw_branch_graph_panel, drag_period, draw_top_controls,
  draw_git_panel, draw_diff_panel, show_error,
}
use dqrvcs.Draw.History.{
  use_for_squash, commit_choices, reflog_rows, draw_commit_actions, draw_rebase, draw_cherry_pick,
  draw_reset, draw_history_panel,
}
use dqrvcs.Draw.Gossip.{
  load_current_config, push_rows, draw_pending_panel, op_row, draw_ops_panel,
  draw_consensus_config_panel, peer_rows, remove_found, draw_peers, draw_node_panel,
  draw_actions_panel, proposal_rows, draw_proposals_panel,
}

module _ {S : System} {C : Type 0} {P : ConflictEditorState → Type 0} (closed : Closed S C P)
    (ui : Ui S) where
  AllKeep-file_choices : (es : List StatusEntry) → AllKeep C P (file_choices ui es)
  unfolding file_choices
  AllKeep-file_choices [] = AllKeep-nil S C P
  AllKeep-file_choices (e ∷ es) =
      AllKeep-cons _ _ (search (keeps_frame, Keeps-refresh_diff_output)) (AllKeep-file_choices es)

  AllKeep-commit_choices : (es : List CommitSummary) → AllKeep C P (commit_choices ui es)
  unfolding commit_choices
  AllKeep-commit_choices [] = AllKeep-nil S C P
  AllKeep-commit_choices (e ∷ es) =
      AllKeep-cons _ _ (search keeps_frame) (AllKeep-commit_choices es)

  AllKeep-reflog_rows : (es : List ReflogEntry) → AllKeep C P (reflog_rows ui es)
  unfolding reflog_rows
  AllKeep-reflog_rows [] = AllKeep-nil S C P
  AllKeep-reflog_rows (e ∷ es) =
      AllKeep-cons _ _ (search keeps_frame)
        (AllKeep-cons _ _ (search keeps_frame) (AllKeep-reflog_rows es))

  AllKeep-peer_rows : (es : List Text) → AllKeep C P (peer_rows ui es)
  unfolding peer_rows
  AllKeep-peer_rows [] = AllKeep-nil S C P
  AllKeep-peer_rows (e ∷ es) =
      AllKeep-cons _ _ (search keeps_frame)
        (AllKeep-cons _ _ (search keeps_frame) (AllKeep-peer_rows es))

  KeepsFrame-show_error : (e : Option Text) → KeepsFrame {S = S} C P (show_error e)
  KeepsFrame-show_error none = search keeps_frame
  KeepsFrame-show_error (some e) = search keeps_frame

  KeepsFrame-drag_period : KeepsFrame C P (drag_period ui)
  unfolding drag_period
  KeepsFrame-drag_period = record { at = λ fr w h. h }

  pub KeepsFrame-draw_repo_panel : KeepsFrame {S = S} C P draw_repo_panel
  unfolding draw_repo_panel
  KeepsFrame-draw_repo_panel = search (keeps_frame) depth 99 fits 9000

  pub KeepsFrame-draw_branch_graph_panel : KeepsFrame {S = S} C P draw_branch_graph_panel
  unfolding draw_branch_graph_panel
  KeepsFrame-draw_branch_graph_panel = search (keeps_frame) depth 99 fits 9000

  pub KeepsFrame-draw_top_controls : KeepsFrame {S = S} C P (draw_top_controls ui)
  unfolding draw_top_controls
  KeepsFrame-draw_top_controls =
      search (keeps_frame, Keeps-refresh, KeepsFrame-show_error, KeepsFrame-drag_period) depth 99
        fits 9000

  pub KeepsFrame-draw_git_panel : KeepsFrame {S = S} C P (draw_git_panel ui)
  unfolding draw_git_panel
  KeepsFrame-draw_git_panel =
      search (keeps_frame, AllKeep-file_choices, keeps_buttons) depth 99 fits 9000

  pub KeepsFrame-draw_diff_panel : KeepsFrame {S = S} C P (draw_diff_panel ui)
  unfolding draw_diff_panel
  KeepsFrame-draw_diff_panel = search (keeps_frame, Keeps-refresh_diff_output) depth 99 fits 9000

  KeepsFrame-draw_commit_actions : KeepsFrame {S = S} C P (draw_commit_actions ui)
  unfolding draw_commit_actions use_for_squash
  KeepsFrame-draw_commit_actions = search (keeps_frame, AllKeep-commit_choices) depth 99 fits 9000

  KeepsFrame-draw_rebase : KeepsFrame {S = S} C P (draw_rebase ui)
  unfolding draw_rebase
  KeepsFrame-draw_rebase =
      search (keeps_frame, Keeps-run_git_command, keeps_buttons, keeps_forms) depth 99 fits 9000

  KeepsFrame-draw_cherry_pick : KeepsFrame {S = S} C P (draw_cherry_pick ui)
  unfolding draw_cherry_pick
  KeepsFrame-draw_cherry_pick =
      search (keeps_frame, Keeps-run_git_command, keeps_buttons) depth 99 fits 9000

  KeepsFrame-draw_reset : KeepsFrame {S = S} C P (draw_reset ui)
  unfolding draw_reset
  KeepsFrame-draw_reset = search (keeps_frame, keeps_buttons) depth 99 fits 9000

  pub KeepsFrame-draw_history_panel : KeepsFrame {S = S} C P (draw_history_panel ui)
  unfolding draw_history_panel
  KeepsFrame-draw_history_panel =
      search
        (
          keeps_frame, KeepsFrame-draw_commit_actions, KeepsFrame-draw_rebase,
          KeepsFrame-draw_cherry_pick, KeepsFrame-draw_reset, AllKeep-reflog_rows,
        )
        depth 99 fits 9000

  KeepsFrame-push_rows : (push : PendingPush) → KeepsFrame C P (push_rows S push)
  unfolding push_rows
  KeepsFrame-push_rows push = search keeps_frame depth 20

  pub KeepsFrame-draw_pending_panel : KeepsFrame {S = S} C P (draw_pending_panel S)
  unfolding draw_pending_panel
  KeepsFrame-draw_pending_panel = search (keeps_frame, KeepsFrame-push_rows) depth 99 fits 9000

  KeepsFrame-op_row : (op : Operation S.E.V) → KeepsFrame C P (op_row S op)
  unfolding op_row
  KeepsFrame-op_row op = search keeps_frame

  pub KeepsFrame-draw_ops_panel : KeepsFrame {S = S} C P (draw_ops_panel S)
  unfolding draw_ops_panel
  KeepsFrame-draw_ops_panel = search (keeps_frame, KeepsFrame-op_row) depth 99 fits 9000

  pub KeepsFrame-draw_consensus_config_panel :
      KeepsFrame {S = S} C P (draw_consensus_config_panel ui)
  unfolding draw_consensus_config_panel load_current_config
  KeepsFrame-draw_consensus_config_panel = search (keeps_frame, keeps_forms) depth 99 fits 9000

  KeepsFrame-remove_found : (found : Option Text) → KeepsFrame C P (remove_found ui found)
  KeepsFrame-remove_found none = search keeps_frame
  KeepsFrame-remove_found (some peer) = search (keeps_frame, keeps_buttons)

  KeepsFrame-draw_peers : (peers : List Text) → KeepsFrame C P (draw_peers ui peers)
  unfolding draw_peers
  KeepsFrame-draw_peers peers = record {
    at = λ fr w h.
        (KeepsFrame-run_all _ (
            AllKeep-cons _ _ (KeepsFrame-run_all _ (AllKeep-peer_rows peers))
              (AllKeep-cons _ _ (KeepsFrame-remove_found _) (AllKeep-nil S C P)))).at
          fr w h;
  }

  pub KeepsFrame-draw_node_panel : KeepsFrame {S = S} C P (draw_node_panel ui)
  unfolding draw_node_panel
  KeepsFrame-draw_node_panel =
      search (keeps_frame, keeps_forms, KeepsFrame-draw_peers) depth 99 fits 9000

  pub KeepsFrame-draw_actions_panel : KeepsFrame {S = S} C P (draw_actions_panel ui)
  unfolding draw_actions_panel
  KeepsFrame-draw_actions_panel = search (keeps_frame, keeps_buttons) depth 99 fits 9000

  KeepsFrame-proposal_rows : (p : ProposalView) → KeepsFrame C P (proposal_rows ui p)
  unfolding proposal_rows
  KeepsFrame-proposal_rows p = search keeps_frame depth 20

  pub KeepsFrame-draw_proposals_panel : KeepsFrame {S = S} C P (draw_proposals_panel ui)
  unfolding draw_proposals_panel
  KeepsFrame-draw_proposals_panel =
      search (keeps_frame, KeepsFrame-proposal_rows) depth 99 fits 9000
