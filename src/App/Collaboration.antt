-- ===== src/App/Collaboration.antt =====
-- The handlers of peers, pending pushes and proposals, `on_apply_consensus_config` to
-- `on_consensus_status` (gui/src/main.rs).
use dqrvcs.Prelude.{Bool, ◌||◌, List, [], ◌∷◌, ◌++◌, if◌then◌else◌, is_empty, none, some, ok, err}
use dqrvcs.Text.{Text, codes, starts_with}
use dqrvcs.Text.Trim.{trim}
use dqrvcs.Args.{build_consensus_config_args}
use dqrvcs.System.{System}
use dqrvcs.App.{VcsGuiApp, Method, say}
use dqrvcs.App.Run.{run_vcs_command}

-- The optional arguments of `on_propose`.
abbrev pub push_option : Text → Text → List Text → List Text
push_option flag value rest = if is_empty value then rest else flag ∷ value ∷ rest

module _ (S : System) where
  -- `self.consensus_form.members_csv.clear()`
  abbrev pub clear_members_csv : VcsGuiApp S → VcsGuiApp S
  clear_members_csv app = record app {
    consensus_form = record (app.consensus_form) { members_csv = [] };
  }

  unfoldable pub on_apply_consensus_config : Bool → Method S
  on_apply_consensus_config clear_members app w =
      let members = if clear_members then [] else trim app.consensus_form.members_csv in
      elim (build_consensus_config_args (trim app.consensus_form.threshold) members clear_members) [
        | err e ↦ say S e app w
        | ok args ↦ elim (run_vcs_command S args app w) [
          | none ↦ none
          | some (app', w') ↦ some ((if clear_members then clear_members_csv app' else app'), w')
        ]
      ]

  abbrev pub has_failed : Text → Bool
  has_failed output =
      starts_with output (codes "vcs command failed:")
      || starts_with output (codes "failed to execute vcs command:")

  unfoldable pub on_add_peer : Method S
  on_add_peer app w =
      let peer = trim app.peer_form.peer_url in
      if is_empty peer
      then say S (codes "peer URL cannot be empty") app w
      else elim (run_vcs_command S (codes "peer" ∷ codes "add" ∷ peer ∷ []) app w) [
        | none ↦ none
        | some (app', w') ↦ some (
          (if has_failed app'.action_output
              then app'
              else record app' { peer_form = record { peer_url = [] } }),
          w',
        )
      ]

  unfoldable pub on_remove_peer : Text → Method S
  on_remove_peer peer = run_vcs_command S (codes "peer" ∷ codes "remove" ∷ peer ∷ [])

  unfoldable pub on_sync_now : Method S
  on_sync_now = run_vcs_command S (codes "sync" ∷ [])

  unfoldable pub on_process_pending_pushes : Method S
  on_process_pending_pushes = run_vcs_command S (codes "push" ∷ codes "--process-pending" ∷ [])

  unfoldable pub on_list_pending_queue : Method S
  on_list_pending_queue = run_vcs_command S (codes "push" ∷ codes "--list-pending" ∷ [])

  unfoldable pub propose_args : VcsGuiApp S → List Text
  propose_args app =
      let form = app.propose_form in
      let ttl = trim form.ttl_hours in
      let ttl_args : List Text =
        if is_empty ttl then [] else codes "--ttl" ∷ (ttl ++ codes "h") ∷ [] in
      codes "consensus"
      ∷ codes "propose"
      ∷ codes "--ref"
      ∷ trim form.reference
      ∷ codes "--new"
      ∷ trim form.new_oid
      ∷ push_option (codes "--old") (trim form.old_oid)
          (push_option (codes "--epoch") (trim form.epoch) ttl_args)

  unfoldable pub on_propose : Method S
  unfolding propose_args
  on_propose app = run_vcs_command S (propose_args app) app

  unfoldable pub on_cast_vote : Method S
  on_cast_vote app =
      run_vcs_command S
        (codes "consensus"
          ∷ codes "vote"
          ∷ codes "--proposal"
          ∷ trim app.vote_form.proposal_id
          ∷ (if app.vote_form.vote_yes then codes "--yes" else codes "--no")
          ∷ [])
        app

  unfoldable pub on_certify : Method S
  on_certify app =
      run_vcs_command S
        (codes "consensus"
          ∷ codes "certify"
          ∷ codes "--proposal"
          ∷ trim app.vote_form.proposal_id
          ∷ [])
        app

  unfoldable pub on_consensus_status : Method S
  on_consensus_status app =
      run_vcs_command S
        (codes "consensus"
          ∷ codes "status"
          ∷ codes "--proposal"
          ∷ trim app.vote_form.proposal_id
          ∷ [])
        app
