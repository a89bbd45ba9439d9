-- ===== src/Consensus/Latest.antt =====
-- What the tables of proposals and of certificates hold after the operation log is read.
use dqrvcs.Prelude.{
  Bool, true, false, not, ◌&&◌, List, [], ◌∷◌, ◌≡◌, refl, ap, ◌∙◌, arith, if◌then◌else◌, Option,
  none, some, some_or, Bool-cases, inl, inr,
}
use dqrvcs.Text.{Text, codes, eqb, eqb_iff}
use dqrvcs.Text.Trim.{is_blank}
use dqrvcs.Map.{lookup, lookup-insert}
use dqrvcs.Consensus.{
  Externals, Operation, ProposalPayload, CertPayload, ProposalView, GossipData, Tables, no_tables,
  record_proposal, record_vote, record_cert, record_op, record_ops, view_of, finish_view,
}
use dqrvcs.Consensus.Quorum.{finished}
use dqrvcs.Consensus.Views.{other_op}

-- The newer of two, where there is one.
abbrev newest : {A : Type 0} → Option A → Option A → Option A
newest none old = old
newest (some a) old = some a

newest-none : {A : Type 0} (o : Option A) → newest o none ≡ o
newest-none none = refl
newest-none (some a) = refl

newest_assoc : {A : Type 0} (x y z : Option A) → newest x (newest y z) ≡ newest (newest x y) z
newest_assoc none y z = refl
newest_assoc (some a) y z = refl

newest-if :
    {A : Type 0} (b : Bool) (a : A) (old : Option A)
    → (if b then some a else old) ≡ newest (if b then some a else none) old
newest-if true a old = refl
newest-if false a old = refl

module _ (E : Externals) where
  open E use {V, proposal_of, cert_of}

  abbrev proposal_in : Text → Operation V → Option ProposalPayload → Option ProposalView
  proposal_in pid op none = none
  proposal_in pid op (some payload) =
      if not (is_blank payload.proposal_id) && eqb payload.proposal_id pid
      then some (view_of E op payload)
      else none

  -- The view that an operation opens for `pid`.
  unfoldable pub proposal_on : Text → Operation V → Option ProposalView
  proposal_on pid op =
      if eqb op.op_type (codes "consensus.proposal")
      then proposal_in pid op (proposal_of op.payload)
      else none

  -- The last one.
  unfoldable pub latest_proposal : Text → List (Operation V) → Option ProposalView
  latest_proposal pid [] = none
  latest_proposal pid (op ∷ ops) = newest (latest_proposal pid ops) (proposal_on pid op)

  abbrev cert_in : Text → Option CertPayload → Option Bool
  cert_in pid none = none
  cert_in pid (some payload) =
      if not (is_blank payload.proposal_id) && eqb payload.proposal_id pid
      then some payload.certified
      else none

  -- What an operation certifies of `pid`.
  unfoldable pub cert_on : Text → Operation V → Option Bool
  cert_on pid op =
      if eqb op.op_type (codes "consensus.cert") then cert_in pid (cert_of op.payload) else none

  -- The last one.
  unfoldable pub latest_cert : Text → List (Operation V) → Option Bool
  latest_cert pid [] = none
  latest_cert pid (op ∷ ops) = newest (latest_cert pid ops) (cert_on pid op)

  proposal_kept :
      (op : Operation V) (t : Tables) (pid : Text) (o : Option ProposalPayload)
      → proposal_of op.payload ≡ o
      → lookup pid (record_proposal E op t).proposals
        ≡ newest (proposal_in pid op o) (lookup pid t.proposals)
  unfolding record_proposal
  proposal_kept op t pid none e = rw (record_proposal, e) refl
  proposal_kept op t pid (some payload) e = elim (Bool-cases (is_blank payload.proposal_id)) [
    | inl b ↦ rw (record_proposal, e, b) refl
    | inr b ↦
        rw (record_proposal, e, b)
          (lookup-insert payload.proposal_id pid (view_of E op payload) t.proposals
            ∙ newest-if (eqb payload.proposal_id pid) (view_of E op payload)
                (lookup pid t.proposals))
  ]

  record_op-proposal_on :
      (op : Operation V) (t : Tables) (pid : Text)
      → lookup pid (record_op E op t).proposals
        ≡ newest (proposal_on pid op) (lookup pid t.proposals)
  unfolding proposal_on record_op
  record_op-proposal_on op t pid = elim (Bool-cases (eqb op.op_type (codes "consensus.proposal"))) [
    | inl e ↦ rw e (proposal_kept op t pid (proposal_of op.payload) refl)
    | inr e ↦ rw e (ap (λ m. lookup pid m) (rw e at (other_op E op t e)))
  ]

  record_ops-latest_proposal :
      (ops : List (Operation V)) (t : Tables) (pid : Text)
      → lookup pid (record_ops E ops t).proposals
        ≡ newest (latest_proposal pid ops) (lookup pid t.proposals)
  unfolding record_ops latest_proposal
  record_ops-latest_proposal [] t pid = refl
  record_ops-latest_proposal (op ∷ ops) t pid =
      record_ops-latest_proposal ops (record_op E op t) pid
      ∙ ap (newest (latest_proposal pid ops)) (record_op-proposal_on op t pid)
      ∙ newest_assoc (latest_proposal pid ops) (proposal_on pid op) (lookup pid t.proposals)

  cert_kept :
      (op : Operation V) (t : Tables) (pid : Text) (o : Option CertPayload)
      → cert_of op.payload ≡ o
      → lookup pid (record_cert E op t).cert_by_proposal
        ≡ newest (cert_in pid o) (lookup pid t.cert_by_proposal)
  unfolding record_cert
  cert_kept op t pid none e = rw (record_cert, e) refl
  cert_kept op t pid (some payload) e = elim (Bool-cases (is_blank payload.proposal_id)) [
    | inl b ↦ rw (record_cert, e, b) refl
    | inr b ↦
        rw (record_cert, e, b)
          (lookup-insert payload.proposal_id pid payload.certified t.cert_by_proposal
            ∙ newest-if (eqb payload.proposal_id pid) payload.certified
                (lookup pid t.cert_by_proposal))
  ]

  record_proposal-certs :
      (op : Operation V) (t : Tables)
      → (record_proposal E op t).cert_by_proposal ≡ t.cert_by_proposal
  unfolding record_proposal
  record_proposal-certs op t = ground arith

  record_vote-certs :
      (op : Operation V) (t : Tables) → (record_vote E op t).cert_by_proposal ≡ t.cert_by_proposal
  unfolding record_vote
  record_vote-certs op t = ground arith

  proposal_no_cert :
      (ty : Text) → ty ≡ codes "consensus.proposal" → eqb ty (codes "consensus.cert") ≡ false
  unfolding codes eqb
  proposal_no_cert ty e = rw e

  vote_no_cert : (ty : Text) → ty ≡ codes "consensus.vote" → eqb ty (codes "consensus.cert") ≡ false
  unfolding codes eqb
  vote_no_cert ty e = rw e

  record_op-cert_on :
      (op : Operation V) (t : Tables) (pid : Text)
      → lookup pid (record_op E op t).cert_by_proposal
        ≡ newest (cert_on pid op) (lookup pid t.cert_by_proposal)
  unfolding cert_on record_op
  record_op-cert_on op t pid =
      let ty = op.op_type in
      elim (Bool-cases (eqb ty (codes "consensus.proposal"))) [
        | inl p ↦
            rw (p, proposal_no_cert ty ((eqb_iff ty (codes "consensus.proposal")).0 p))
              (ap (λ m. lookup pid m) (record_proposal-certs op t))
        | inr p ↦ elim (Bool-cases (eqb ty (codes "consensus.vote"))) [
          | inl v ↦
              rw (p, v, vote_no_cert ty ((eqb_iff ty (codes "consensus.vote")).0 v))
                (ap (λ m. lookup pid m) (record_vote-certs op t))
          | inr v ↦ elim (Bool-cases (eqb ty (codes "consensus.cert"))) [
            | inl c ↦ rw (p, v, c) (cert_kept op t pid (cert_of op.payload) refl)
            | inr c ↦ rw (p, v, c) refl
          ]
        ]
      ]

  record_ops-latest_cert :
      (ops : List (Operation V)) (t : Tables) (pid : Text)
      → lookup pid (record_ops E ops t).cert_by_proposal
        ≡ newest (latest_cert pid ops) (lookup pid t.cert_by_proposal)
  unfolding record_ops latest_cert
  record_ops-latest_cert [] t pid = refl
  record_ops-latest_cert (op ∷ ops) t pid =
      record_ops-latest_cert ops (record_op E op t) pid
      ∙ ap (newest (latest_cert pid ops)) (record_op-cert_on op t pid)
      ∙ newest_assoc (latest_cert pid ops) (cert_on pid op) (lookup pid t.cert_by_proposal)

  -- After the log is read, the table of proposals holds for an id the view that its last proposal
  -- in the log opens, and nothing where there is none.
  pub lookup-latest_proposal :
      (ops : List (Operation V)) (pid : Text)
      → lookup pid (record_ops E ops no_tables).proposals ≡ latest_proposal pid ops
  unfolding lookup
  lookup-latest_proposal ops pid =
      record_ops-latest_proposal ops no_tables pid ∙ newest-none (latest_proposal pid ops)

  -- A finished view is certified if the last certificate of its proposal in the log says so, and
  -- not where there is none.
  pub finished-latest_cert :
      (gossip : GossipData V E.F) (now : Text → E.Time) (pid : Text) (p : ProposalView)
      → (finished E gossip now pid p).certified ≡ some_or (latest_cert pid gossip.ops) false
  unfolding finish_view lookup
  finished-latest_cert gossip now pid p =
      ap (λ c. some_or c false)
        (record_ops-latest_cert gossip.ops no_tables pid ∙ newest-none (latest_cert pid gossip.ops))
