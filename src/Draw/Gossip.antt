-- ===== src/Draw/Gossip.antt =====
-- The panels about peers and proposals: `draw_consensus_config_panel`, `draw_node_panel`,
-- `draw_actions_panel`, `draw_pending_panel`, `draw_proposals_panel` and `draw_ops_panel` of
-- gui/src/main.rs.
use dqrvcs.Prelude.{
  ℕ, suc, true, false, not, List, [], ◌∷◌, ◌++◌, if◌then◌else◌, is_empty, map, length, take, Option,
  none, some,
}
use dqrvcs.Text.{Text, codes, eqb}
use dqrvcs.Text.Trim.{is_blank}
use dqrvcs.Text.Bytes.{show_nat}
use dqrvcs.Text.Split.{join}
use dqrvcs.Consensus.{PendingPush, Operation, ProposalView}
use dqrvcs.System.{System}
use dqrvcs.App.Collaboration.{
  on_apply_consensus_config, on_add_peer, on_remove_peer, on_sync_now, on_process_pending_pushes,
  on_list_pending_queue, on_propose, on_cast_vote, on_certify, on_consensus_status,
}
use dqrvcs.Draw.{
  Ui, Panel, Setter, Style, heading, label, strong, monospace, colored, run_all, observe, when,
  either, paint, act, assign, on_click, choose_value, text_edit, with_propose, with_vote,
  with_consensus,
}
use dqrvcs.Draw.Labels.{short_hash, non_empty, show_bool, format}

-- `iter().rev()`
unfoldable pub reverse : {A : Type 0} → List A → List A
reverse [] = []
reverse (a ∷ rest) = reverse rest ++ a ∷ []

-- The colour of a pending push, and of a proposal.
unfoldable pub push_color : Text → Style
push_color status =
    if eqb status (codes "completed")
    then colored 90 190 100
    else if eqb status (codes "failed")
    then colored 220 100 100
    else colored 250 200 100

unfoldable pub status_color : ProposalView → Style
status_color p =
    if p.certified
    then colored 90 190 100
    else if p.quorum
    then colored 150 210 120
    else if p.expired
    then colored 220 120 120
    else colored 250 200 100

module _ (S : System) where
  -- "Load current"
  unfoldable pub load_current_config : Setter S
  load_current_config app = record app {
    consensus_form = record {
      threshold = S.show_f64_2 app.app_data.gossip.consensus_threshold;
      members_csv = join (codes ",") app.app_data.gossip.consensus_members;
    };
  }

  unfoldable pub push_rows : PendingPush → Panel S
  unfolding push_color
  push_rows push = run_all (
      paint (push_color push.status) (
        format (
          short_hash push.proposal_id
          ∷ codes " "
          ∷ non_empty push.remote
          ∷ codes " -> "
          ∷ non_empty push.target_ref
          ∷ codes " ("
          ∷ non_empty push.status
          ∷ codes ") attempts="
          ∷ S.show_i32 push.attempts
          ∷ []))
      ∷ paint monospace (format (codes "new: " ∷ short_hash push.new_oid ∷ []))
      ∷ when (not (is_blank push.last_error))
          (paint label (format (codes "last error: " ∷ push.last_error ∷ [])))
      ∷ [])

  unfoldable pub draw_pending_panel : Panel S
  unfolding push_rows
  draw_pending_panel = run_all (
      paint heading (codes "Pending Pushes")
      ∷ observe (λ app.
        either (is_empty app.app_data.gossip.pending_pushes)
          (paint label (codes "No pending pushes"))
          (run_all (map push_rows app.app_data.gossip.pending_pushes)))
      ∷ [])

  unfoldable pub op_row : Operation S.E.V → Panel S
  op_row op = paint monospace (
      format (
        non_empty op.timestamp
        ∷ codes " #"
        ∷ show_nat op.seq
        ∷ codes " "
        ∷ non_empty op.op_type
        ∷ codes " "
        ∷ short_hash op.author
        ∷ codes " "
        ∷ short_hash op.id
        ∷ []))

  unfoldable pub draw_ops_panel : Panel S
  unfolding op_row reverse
  draw_ops_panel = run_all (
      paint heading (codes "Operation Feed")
      ∷ observe (λ app.
        either (is_empty app.app_data.gossip.ops) (paint label (codes "No operations found"))
          (run_all (map op_row (take 120 (reverse app.app_data.gossip.ops)))))
      ∷ [])

module _ {S : System} (ui : Ui S) where
  unfoldable pub draw_consensus_config_panel : Panel S
  unfolding load_current_config
  draw_consensus_config_panel = run_all (
      paint heading (codes "Consensus Config")
      ∷ paint label (codes "Threshold")
      ∷ text_edit ui (λ app. app.consensus_form.threshold)
          (λ t. with_consensus (λ c. record c { threshold = t }))
      ∷ paint label (codes "Members CSV")
      ∷ text_edit ui (λ app. app.consensus_form.members_csv)
          (λ t. with_consensus (λ c. record c { members_csv = t }))
      ∷ on_click ui (codes "Apply config") (act (on_apply_consensus_config S false))
      ∷ on_click ui (codes "Clear members") (act (on_apply_consensus_config S true))
      ∷ on_click ui (codes "Load current") (assign (load_current_config S))
      ∷ [])

  -- The rows of the peers, and the peer of the last "Remove" that is clicked, from the number `k`.
  unfoldable pub peer_rows : List Text → List (Panel S)
  peer_rows [] = []
  peer_rows (peer ∷ rest) =
      paint monospace peer ∷ on_click ui (codes "Remove") (run_all []) ∷ peer_rows rest

  unfoldable pub peer_to_remove : ℕ → List Text → Option Text → Option Text
  peer_to_remove k [] found = found
  peer_to_remove k (peer ∷ rest) found =
      peer_to_remove (suc (suc k)) rest (if ui.clicked (suc k) then some peer else found)

  abbrev pub remove_found : Option Text → Panel S
  remove_found none = run_all []
  remove_found (some peer) = act (on_remove_peer S peer)

  unfoldable pub draw_peers : List Text → Panel S
  unfolding peer_rows peer_to_remove
  draw_peers peers fr w =
      run_all
        (run_all (peer_rows peers)
          ∷ remove_found (peer_to_remove (length fr.items) peers none)
          ∷ [])
        fr w

  unfoldable pub draw_node_panel : Panel S
  unfolding draw_peers
  draw_node_panel = run_all (
      paint heading (codes "Node + Peers")
      ∷ observe (λ app.
        let gossip = app.app_data.gossip in
        run_all (
          paint label (format (codes "Node ID: " ∷ non_empty gossip.node_id ∷ []))
          ∷ paint label (
              format (codes "Consensus threshold: " ∷ S.show_f64_2 gossip.consensus_threshold ∷ []))
          ∷ paint label (
              format
                (codes "Configured members: " ∷ show_nat (length gossip.consensus_members) ∷ []))
          ∷ run_all (map (λ m. paint monospace (short_hash m)) gossip.consensus_members)
          ∷ paint label (format (codes "Peers: " ∷ show_nat (length gossip.peers) ∷ []))
          ∷ []))
      ∷ paint label (codes "Peer URL")
      ∷ text_edit ui (λ app. app.peer_form.peer_url)
          (λ t app. record app { peer_form = record { peer_url = t } })
      ∷ on_click ui (codes "Add peer") (act (on_add_peer S))
      ∷ observe (λ app.
        either (is_empty app.app_data.gossip.peers) (paint label (codes "no peers configured"))
          (draw_peers app.app_data.gossip.peers))
      ∷ [])

  unfoldable pub draw_actions_panel : Panel S
  draw_actions_panel = run_all (
      paint heading (codes "Actions")
      ∷ on_click ui (codes "Sync now") (act (on_sync_now S))
      ∷ on_click ui (codes "Process pending pushes") (act (on_process_pending_pushes S))
      ∷ on_click ui (codes "List pending queue") (act (on_list_pending_queue S))
      ∷ paint strong (codes "Create Proposal")
      ∷ paint label (codes "Ref")
      ∷ text_edit ui (λ app. app.propose_form.reference)
          (λ t. with_propose (λ p. record p { reference = t }))
      ∷ paint label (codes "New OID")
      ∷ text_edit ui (λ app. app.propose_form.new_oid)
          (λ t. with_propose (λ p. record p { new_oid = t }))
      ∷ paint label (codes "Old OID")
      ∷ text_edit ui (λ app. app.propose_form.old_oid)
          (λ t. with_propose (λ p. record p { old_oid = t }))
      ∷ paint label (codes "Epoch")
      ∷ text_edit ui (λ app. app.propose_form.epoch)
          (λ t. with_propose (λ p. record p { epoch = t }))
      ∷ paint label (codes "TTL (hours)")
      ∷ text_edit ui (λ app. app.propose_form.ttl_hours)
          (λ t. with_propose (λ p. record p { ttl_hours = t }))
      ∷ on_click ui (codes "Propose") (act (on_propose S))
      ∷ paint strong (codes "Vote / Certify")
      ∷ paint label (codes "Proposal ID")
      ∷ text_edit ui (λ app. app.vote_form.proposal_id)
          (λ t. with_vote (λ v. record v { proposal_id = t }))
      ∷ choose_value ui (codes "Yes") (with_vote (λ v. record v { vote_yes = true })) (run_all [])
      ∷ choose_value ui (codes "No") (with_vote (λ v. record v { vote_yes = false })) (run_all [])
      ∷ on_click ui (codes "Cast vote") (act (on_cast_vote S))
      ∷ on_click ui (codes "Certify") (act (on_certify S))
      ∷ on_click ui (codes "Status") (act (on_consensus_status S))
      ∷ [])

  unfoldable pub proposal_rows : ProposalView → Panel S
  unfolding status_color
  proposal_rows p = run_all (
      on_click ui (codes "Use ID")
        (assign (with_vote (λ v. record v { proposal_id = p.proposal_id })))
      ∷ paint (status_color p) (
          format (
            short_hash p.proposal_id
            ∷ codes " ref="
            ∷ non_empty p.reference
            ∷ codes " quorum="
            ∷ show_bool p.quorum
            ∷ codes " certified="
            ∷ show_bool p.certified
            ∷ []))
      ∷ paint monospace (
          format (
            codes "yes/no="
            ∷ show_nat p.yes_votes
            ∷ codes "/"
            ∷ show_nat p.no_votes
            ∷ codes " voters="
            ∷ show_nat p.voters
            ∷ codes " required_yes="
            ∷ show_nat p.required_yes
            ∷ codes " epoch="
            ∷ show_nat p.epoch
            ∷ []))
      ∷ paint monospace
          (format (codes "old=" ∷ short_hash p.old_oid ∷ codes " new=" ∷ short_hash p.new_oid ∷ []))
      ∷ paint label (
          format (
            codes "proposer="
            ∷ short_hash p.proposer
            ∷ codes " created="
            ∷ non_empty p.created_at
            ∷ codes " expires="
            ∷ non_empty p.expires_at
            ∷ []))
      ∷ [])

  unfoldable pub draw_proposals_panel : Panel S
  unfolding proposal_rows
  draw_proposals_panel = run_all (
      paint heading (codes "Proposals")
      ∷ observe (λ app.
        either (is_empty app.app_data.proposals) (paint label (codes "No proposals found"))
          (run_all (map proposal_rows app.app_data.proposals)))
      ∷ [])
