-- ===== src/Draw/Idle/Panels.antt =====
-- The panels of gui/src/main.rs in a frame in which the user does nothing.
use dqrvcs.Prelude.{ℕ, suc, length, List, [], ◌∷◌, ◌≡◌, refl, Option, none, some}
use dqrvcs.Text.{Text}
use dqrvcs.Consensus.{PendingPush, Operation, ProposalView}
use dqrvcs.History.{ReflogEntry}
use dqrvcs.System.{System}
use dqrvcs.Draw.Repo.{
  draw_repo_panel, draw_branch_graph_panel, drag_period, draw_top_controls, draw_git_panel,
  draw_diff_panel, show_error,
}
use dqrvcs.Draw.History.{
  reflog_rows, draw_commit_actions, draw_rebase, draw_cherry_pick, draw_reset, draw_history_panel,
}
use dqrvcs.Draw.Gossip.{
  push_rows, draw_pending_panel, op_row, draw_ops_panel, draw_consensus_config_panel, peer_rows,
  peer_to_remove, remove_found, draw_peers, draw_node_panel, draw_actions_panel, proposal_rows,
  draw_proposals_panel,
}
use dqrvcs.Draw.Idle.{
  idle, Still, AllStill, AllStill-nil, AllStill-cons, Still-run_all, Still-on_click, Still-paint,
  still_rules,
}

module _ (S : System) where
  AllStill-reflog_rows : (es : List ReflogEntry) → AllStill {S = S} (reflog_rows idle es)
  unfolding reflog_rows
  AllStill-reflog_rows [] = AllStill-nil S
  AllStill-reflog_rows (e ∷ es) =
      AllStill-cons _ _ (Still-on_click _ _)
        (AllStill-cons _ _ (Still-paint _ _) (AllStill-reflog_rows es))

  AllStill-peer_rows : (es : List Text) → AllStill {S = S} (peer_rows idle es)
  unfolding peer_rows
  AllStill-peer_rows [] = AllStill-nil S
  AllStill-peer_rows (e ∷ es) =
      AllStill-cons _ _ (Still-paint _ _)
        (AllStill-cons _ _ (Still-on_click _ _) (AllStill-peer_rows es))

  Still-show_error : (e : Option Text) → Still {S = S} (show_error e)
  Still-show_error none = search still_rules
  Still-show_error (some e) = search still_rules

  Still-drag_period : Still {S = S} (drag_period idle)
  unfolding drag_period
  Still-drag_period = record { at = λ app items w h. (_, refl) }

  pub Still-draw_repo_panel : Still {S = S} draw_repo_panel
  unfolding draw_repo_panel
  Still-draw_repo_panel = search (still_rules) depth 99 fits 9000

  pub Still-draw_branch_graph_panel : Still {S = S} draw_branch_graph_panel
  unfolding draw_branch_graph_panel
  Still-draw_branch_graph_panel = search (still_rules) depth 99 fits 9000

  pub Still-draw_top_controls : Still {S = S} (draw_top_controls idle)
  unfolding draw_top_controls
  Still-draw_top_controls =
      search (still_rules, Still-show_error, Still-drag_period) depth 99 fits 9000

  pub Still-draw_git_panel : Still {S = S} (draw_git_panel idle)
  unfolding draw_git_panel
  Still-draw_git_panel = search (still_rules) depth 99 fits 9000

  pub Still-draw_diff_panel : Still {S = S} (draw_diff_panel idle)
  unfolding draw_diff_panel
  Still-draw_diff_panel = search (still_rules) depth 99 fits 9000

  Still-draw_commit_actions : Still {S = S} (draw_commit_actions idle)
  unfolding draw_commit_actions
  Still-draw_commit_actions = search (still_rules) depth 99 fits 9000

  Still-draw_rebase : Still {S = S} (draw_rebase idle)
  unfolding draw_rebase
  Still-draw_rebase = search (still_rules) depth 99 fits 9000

  Still-draw_cherry_pick : Still {S = S} (draw_cherry_pick idle)
  unfolding draw_cherry_pick
  Still-draw_cherry_pick = search (still_rules) depth 99 fits 9000

  Still-draw_reset : Still {S = S} (draw_reset idle)
  unfolding draw_reset
  Still-draw_reset = search (still_rules) depth 99 fits 9000

  pub Still-draw_history_panel : Still {S = S} (draw_history_panel idle)
  unfolding draw_history_panel
  Still-draw_history_panel =
      search
        (
          still_rules, AllStill-reflog_rows, Still-draw_commit_actions, Still-draw_rebase,
          Still-draw_cherry_pick, Still-draw_reset,
        )
        depth 99 fits 9000

  Still-push_rows : (push : PendingPush) → Still (push_rows S push)
  unfolding push_rows
  Still-push_rows push = search still_rules depth 20

  pub Still-draw_pending_panel : Still {S = S} (draw_pending_panel S)
  unfolding draw_pending_panel
  Still-draw_pending_panel = search (still_rules, Still-push_rows) depth 99 fits 9000

  Still-op_row : (op : Operation S.E.V) → Still (op_row S op)
  unfolding op_row
  Still-op_row op = search still_rules

  pub Still-draw_ops_panel : Still {S = S} (draw_ops_panel S)
  unfolding draw_ops_panel
  Still-draw_ops_panel = search (still_rules, Still-op_row) depth 99 fits 9000

  pub Still-draw_consensus_config_panel : Still {S = S} (draw_consensus_config_panel idle)
  unfolding draw_consensus_config_panel
  Still-draw_consensus_config_panel = search (still_rules) depth 99 fits 9000

  peer_to_remove-idle :
      (k : ℕ) (peers : List Text) → peer_to_remove (idle {S = S}) k peers none ≡ none
  unfolding peer_to_remove
  peer_to_remove-idle k [] = refl
  peer_to_remove-idle k (peer ∷ rest) = peer_to_remove-idle (suc (suc k)) rest

  Still-draw_peers : (peers : List Text) → Still {S = S} (draw_peers idle peers)
  unfolding draw_peers
  Still-draw_peers peers = record {
    at = λ app items w h.
        let found : Still {S = S}
            (remove_found idle (peer_to_remove (idle {S = S}) (length items) peers none)) =
          rw (peer_to_remove-idle (length items) peers) (Still-run_all [] (AllStill-nil S)) in
        (Still-run_all _ (
            AllStill-cons _ _ (Still-run_all _ (AllStill-peer_rows peers))
              (AllStill-cons _ _ found (AllStill-nil S)))).at
          app items w h;
  }

  pub Still-draw_node_panel : Still {S = S} (draw_node_panel idle)
  unfolding draw_node_panel
  Still-draw_node_panel = search (still_rules, Still-draw_peers) depth 99 fits 9000

  pub Still-draw_actions_panel : Still {S = S} (draw_actions_panel idle)
  unfolding draw_actions_panel
  Still-draw_actions_panel = search (still_rules) depth 99 fits 9000

  Still-proposal_rows : (p : ProposalView) → Still {S = S} (proposal_rows idle p)
  unfolding proposal_rows
  Still-proposal_rows p = search still_rules depth 20

  pub Still-draw_proposals_panel : Still {S = S} (draw_proposals_panel idle)
  unfolding draw_proposals_panel
  Still-draw_proposals_panel = search (still_rules, Still-proposal_rows) depth 99 fits 9000
