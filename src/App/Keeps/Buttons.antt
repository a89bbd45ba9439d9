-- ===== src/App/Keeps/Buttons.antt =====
-- The buttons of gui/src/main.rs that run one command keep what holds of the conflict editor.
use dqrvcs.Prelude.{Bool, true, false}
use dqrvcs.Text.{Text}
use dqrvcs.Conflict.{ConflictEditorState}
use dqrvcs.System.{System}
use dqrvcs.App.Handlers.{
  on_stage_all, on_unstage_all, on_stage_file, on_unstage_file, on_commit, on_amend, on_checkout,
  on_revert, on_pull, on_push, on_squash, on_start_merge, on_resolve_conflict_with_side,
  on_mark_conflict_resolved_add, on_commit_merge, on_run_rebase, on_run_cherry_pick, on_run_reset,
}
use dqrvcs.App.Collaboration.{
  on_remove_peer, on_sync_now, on_process_pending_pushes, on_list_pending_queue, on_propose,
  on_cast_vote, on_certify, on_consensus_status,
}
use dqrvcs.App.Keeps.{
  Keeps, Closed, Keeps-run_vcs_command, Keeps-vcs, Keeps-built_vcs, Keeps-built_git,
}

module _ {S : System} {C : Type 0} {P : ConflictEditorState → Type 0} (closed : Closed S C P) where
  pub Keeps-on_stage_all : Keeps C P (on_stage_all S)
  unfolding on_stage_all
  Keeps-on_stage_all = Keeps-run_vcs_command closed _

  pub Keeps-on_unstage_all : Keeps C P (on_unstage_all S)
  unfolding on_unstage_all
  Keeps-on_unstage_all = Keeps-run_vcs_command closed _

  pub Keeps-on_pull : Keeps C P (on_pull S)
  unfolding on_pull
  Keeps-on_pull = Keeps-run_vcs_command closed _

  pub Keeps-on_sync_now : Keeps C P (on_sync_now S)
  unfolding on_sync_now
  Keeps-on_sync_now = Keeps-run_vcs_command closed _

  pub Keeps-on_process_pending_pushes : Keeps C P (on_process_pending_pushes S)
  unfolding on_process_pending_pushes
  Keeps-on_process_pending_pushes = Keeps-run_vcs_command closed _

  pub Keeps-on_list_pending_queue : Keeps C P (on_list_pending_queue S)
  unfolding on_list_pending_queue
  Keeps-on_list_pending_queue = Keeps-run_vcs_command closed _

  pub Keeps-on_remove_peer : (peer : Text) → Keeps C P (on_remove_peer S peer)
  unfolding on_remove_peer
  Keeps-on_remove_peer peer = Keeps-run_vcs_command closed _

  pub Keeps-on_push : (immediate : Bool) → Keeps C P (on_push S immediate)
  unfolding on_push
  Keeps-on_push true = Keeps-run_vcs_command closed _
  Keeps-on_push false = Keeps-run_vcs_command closed _

  pub Keeps-on_stage_file : Keeps C P (on_stage_file S)
  unfolding on_stage_file
  Keeps-on_stage_file = Keeps-built_vcs closed _

  pub Keeps-on_unstage_file : Keeps C P (on_unstage_file S)
  unfolding on_unstage_file
  Keeps-on_unstage_file = Keeps-built_vcs closed _

  pub Keeps-on_checkout : Keeps C P (on_checkout S)
  unfolding on_checkout
  Keeps-on_checkout = Keeps-built_vcs closed _

  pub Keeps-on_squash : Keeps C P (on_squash S)
  unfolding on_squash
  Keeps-on_squash = Keeps-built_vcs closed _

  pub Keeps-on_commit : (all : Bool) → Keeps C P (on_commit S all)
  unfolding on_commit
  Keeps-on_commit all = Keeps-built_vcs closed _

  pub Keeps-on_revert : (no_commit : Bool) → Keeps C P (on_revert S no_commit)
  unfolding on_revert
  Keeps-on_revert no_commit = Keeps-built_vcs closed _

  pub Keeps-on_start_merge : Keeps C P (on_start_merge S)
  unfolding on_start_merge
  Keeps-on_start_merge = Keeps-built_git closed _

  pub Keeps-on_mark_conflict_resolved_add : Keeps C P (on_mark_conflict_resolved_add S)
  unfolding on_mark_conflict_resolved_add
  Keeps-on_mark_conflict_resolved_add = Keeps-built_git closed _

  pub Keeps-on_commit_merge : Keeps C P (on_commit_merge S)
  unfolding on_commit_merge
  Keeps-on_commit_merge = Keeps-built_git closed _

  pub Keeps-on_run_rebase : Keeps C P (on_run_rebase S)
  unfolding on_run_rebase
  Keeps-on_run_rebase = Keeps-built_git closed _

  pub Keeps-on_run_cherry_pick : Keeps C P (on_run_cherry_pick S)
  unfolding on_run_cherry_pick
  Keeps-on_run_cherry_pick = Keeps-built_git closed _

  pub Keeps-on_run_reset : Keeps C P (on_run_reset S)
  unfolding on_run_reset
  Keeps-on_run_reset = Keeps-built_git closed _

  pub Keeps-on_resolve_conflict_with_side :
      (strategy : Text) → Keeps C P (on_resolve_conflict_with_side S strategy)
  unfolding on_resolve_conflict_with_side
  Keeps-on_resolve_conflict_with_side strategy = Keeps-built_git closed _

  pub Keeps-on_amend : Keeps C P (on_amend S)
  unfolding on_amend
  Keeps-on_amend = Keeps-vcs closed _

  pub Keeps-on_propose : Keeps C P (on_propose S)
  unfolding on_propose
  Keeps-on_propose = Keeps-vcs closed _

  pub Keeps-on_cast_vote : Keeps C P (on_cast_vote S)
  unfolding on_cast_vote
  Keeps-on_cast_vote = Keeps-vcs closed _

  pub Keeps-on_certify : Keeps C P (on_certify S)
  unfolding on_certify
  Keeps-on_certify = Keeps-vcs closed _

  pub Keeps-on_consensus_status : Keeps C P (on_consensus_status S)
  unfolding on_consensus_status
  Keeps-on_consensus_status = Keeps-vcs closed _

pub ruleset keeps_buttons = (
  Keeps-on_stage_all, Keeps-on_unstage_all, Keeps-on_pull, Keeps-on_sync_now,
  Keeps-on_process_pending_pushes, Keeps-on_list_pending_queue, Keeps-on_remove_peer, Keeps-on_push,
  Keeps-on_stage_file, Keeps-on_unstage_file, Keeps-on_checkout, Keeps-on_squash, Keeps-on_commit,
  Keeps-on_revert, Keeps-on_start_merge, Keeps-on_mark_conflict_resolved_add, Keeps-on_commit_merge,
  Keeps-on_run_rebase, Keeps-on_run_cherry_pick, Keeps-on_run_reset,
  Keeps-on_resolve_conflict_with_side, Keeps-on_amend, Keeps-on_propose, Keeps-on_cast_vote,
  Keeps-on_certify, Keeps-on_consensus_status,
)
