-- ===== src/Consensus/Views.antt =====
-- Which proposals have a view.
use dqrvcs.Prelude.{
  ◌+◌, Bool, true, false, not, ◌&&◌, ◌||◌, List, [], ◌∷◌, ◌≡◌, refl, ap, ◌∙◌, arith, All, any,
  if◌then◌else◌, Option, none, some, Bool-cases, inl, inr,
}
use dqrvcs.Text.{Text, codes, eqb, eqb_iff}
use dqrvcs.Text.Trim.{is_blank}
use dqrvcs.Map.{Map, lookup, insert, lookup-insert, IsUnique, insert-IsUnique}
use dqrvcs.Consensus.{
  Externals, Operation, ProposalPayload, ProposalView, GossipData, Tables, no_tables,
  record_proposal, record_vote, record_cert, record_op, record_ops, view_of, finish_view,
  finish_views, compute_proposal_views,
}
use dqrvcs.Consensus.Order.{count, count-sort_latest}

abbrev is_some : {A : Type 0} → Option A → Bool
is_some none = false
is_some (some a) = true

-- Each view is kept under its own id, and no id twice.
abbrev Keyed : Map ProposalView → Type 0
Keyed m = IsUnique m × All (λ entry. entry.1.proposal_id ≡ entry.0) m

abbrev with_id : Text → ProposalView → Bool
with_id pid v = eqb v.proposal_id pid

or_false : (b : Bool) → (b || false) ≡ b
or_false true = refl
or_false false = refl

is_some-insert :
    (k j : Text) (v : ProposalView) (m : Map ProposalView)
    → is_some (lookup j (insert k v m)) ≡ (eqb k j || is_some (lookup j m))
is_some-insert k j v m = elim (Bool-cases (eqb k j)) [
  | inl e ↦ rw (lookup-insert, e) refl
  | inr e ↦ rw (lookup-insert, e) refl
]

All-insert :
    (v : ProposalView) (m : Map ProposalView)
    → All (λ entry. entry.1.proposal_id ≡ entry.0) m
    → All (λ entry. entry.1.proposal_id ≡ entry.0) (insert v.proposal_id v m)
unfolding insert
All-insert v [] h = (refl, tt)
All-insert v ((k, w) ∷ m) h = elim (Bool-cases (eqb k v.proposal_id)) [
  | inl e ↦ rw e (refl, h.1)
  | inr e ↦ rw e (h.0, All-insert v m h.1)
]

count-Keyed :
    (pid : Text) (m : Map ProposalView)
    → Keyed m
    → count (λ entry. with_id pid entry.1) m ≡ (if is_some (lookup pid m) then 1 else 0)
unfolding count lookup
count-Keyed pid [] h = refl
count-Keyed pid ((k, v) ∷ m) (u, named) = elim (Bool-cases (eqb k pid)) [
  | inl e ↦
      let absent : is_some (lookup pid m) ≡ false = rw (← (eqb_iff k pid).0 e) (ap is_some u.0) in
      let rest : count (λ entry. with_id pid entry.1) m ≡ 0 =
        rw absent at (count-Keyed pid m (u.1, named.1)) in
      rw (named.0, e) (omega (arith, rest))
  | inr e ↦ rw (named.0, e) (omega (arith, count-Keyed pid m (u.1, named.1)))
]

module _ (E : Externals) where
  open E use {V, proposal_of}

  abbrev names : Text → Option ProposalPayload → Bool
  names pid none = false
  names pid (some payload) = not (is_blank payload.proposal_id) && eqb payload.proposal_id pid

  -- The operation proposes this id.
  unfoldable pub proposes : Text → Operation V → Bool
  proposes pid op =
      eqb op.op_type (codes "consensus.proposal") && names pid (proposal_of op.payload)

  proposed :
      (op : Operation V) (t : Tables) (pid : Text) (o : Option ProposalPayload)
      → proposal_of op.payload ≡ o
      → is_some (lookup pid (record_proposal E op t).proposals)
        ≡ (names pid o || is_some (lookup pid t.proposals))
  unfolding record_proposal
  proposed op t pid none e = rw (record_proposal, e) refl
  proposed op t pid (some payload) e = elim (Bool-cases (is_blank payload.proposal_id)) [
    | inl b ↦ rw (record_proposal, e, b) refl
    | inr b ↦
        rw (record_proposal, e, b)
          (is_some-insert payload.proposal_id pid (view_of E op payload) t.proposals)
  ]

  proposed-Keyed :
      (op : Operation V) (t : Tables) (o : Option ProposalPayload)
      → proposal_of op.payload ≡ o
      → Keyed t.proposals
      → Keyed (record_proposal E op t).proposals
  unfolding record_proposal view_of
  proposed-Keyed op t none e h = rw (record_proposal, e) h
  proposed-Keyed op t (some payload) e h = elim (Bool-cases (is_blank payload.proposal_id)) [
    | inl b ↦ rw (record_proposal, e, b) h
    | inr b ↦
        rw (record_proposal, e, b)
          (
            insert-IsUnique payload.proposal_id (view_of E op payload) t.proposals h.0,
            All-insert (view_of E op payload) t.proposals h.1,
          )
  ]

  record_vote-proposals :
      (op : Operation V) (t : Tables) → (record_vote E op t).proposals ≡ t.proposals
  unfolding record_vote
  record_vote-proposals op t = ground arith

  record_cert-proposals :
      (op : Operation V) (t : Tables) → (record_cert E op t).proposals ≡ t.proposals
  unfolding record_cert
  record_cert-proposals op t = ground arith

  -- Only a proposal changes the table of proposals.
  pub other_op :
      (op : Operation V) (t : Tables)
      → eqb op.op_type (codes "consensus.proposal") ≡ false
      → (record_op E op t).proposals ≡ t.proposals
  unfolding record_op
  other_op op t e = elim (Bool-cases (eqb op.op_type (codes "consensus.vote"))) [
    | inl v ↦ rw (e, v) (record_vote-proposals op t)
    | inr v ↦ elim (Bool-cases (eqb op.op_type (codes "consensus.cert"))) [
      | inl c ↦ rw (e, v, c) (record_cert-proposals op t)
      | inr c ↦ rw (e, v, c) refl
    ]
  ]

  record_op-proposes :
      (op : Operation V) (t : Tables) (pid : Text)
      → is_some (lookup pid (record_op E op t).proposals)
        ≡ (proposes pid op || is_some (lookup pid t.proposals))
  unfolding proposes record_op
  record_op-proposes op t pid = elim (Bool-cases (eqb op.op_type (codes "consensus.proposal"))) [
    | inl e ↦ rw e (proposed op t pid (proposal_of op.payload) refl)
    | inr e ↦ rw e (ap (λ m. is_some (lookup pid m)) (rw e at (other_op op t e)))
  ]

  record_op-Keyed :
      (op : Operation V) (t : Tables) → Keyed t.proposals → Keyed (record_op E op t).proposals
  unfolding record_op
  record_op-Keyed op t h = elim (Bool-cases (eqb op.op_type (codes "consensus.proposal"))) [
    | inl e ↦ rw e (proposed-Keyed op t (proposal_of op.payload) refl h)
    | inr e ↦ rw (other_op op t e) h
  ]

  record_ops-proposes :
      (ops : List (Operation V)) (t : Tables) (pid : Text)
      → is_some (lookup pid (record_ops E ops t).proposals)
        ≡ (any (proposes pid) ops || is_some (lookup pid t.proposals))
  unfolding record_ops any
  record_ops-proposes [] t pid = refl
  record_ops-proposes (op ∷ ops) t pid =
      ground (arith, record_ops-proposes ops (record_op E op t) pid, record_op-proposes op t pid)

  record_ops-Keyed :
      (ops : List (Operation V)) (t : Tables)
      → Keyed t.proposals
      → Keyed (record_ops E ops t).proposals
  unfolding record_ops
  record_ops-Keyed [] t h = h
  record_ops-Keyed (op ∷ ops) t h = record_ops-Keyed ops (record_op E op t) (record_op-Keyed op t h)

  count-finish_views :
      (gossip : GossipData E.V E.F) (now : Text → E.Time) (t : Tables) (pid : Text)
      (m : Map ProposalView)
      → count (with_id pid) (finish_views E gossip now t m) ≡ count (λ entry. with_id pid entry.1) m
  unfolding count finish_views finish_view
  count-finish_views gossip now t pid [] = refl
  count-finish_views gossip now t pid ((k, v) ∷ m) =
      ap (λ n. (if with_id pid v then 1 else 0) + n) (count-finish_views gossip now t pid m)

  -- Where the walk of the map meets each entry as often as the map has it, an id that some proposal
  -- of the log names, and that is not blank, has exactly one view, and any other id has none.
  pub count-compute_proposal_views :
      (walk : Map ProposalView → Map ProposalView) (now : Text → E.Time)
      (gossip : GossipData E.V E.F) (pid : Text)
      → ((test : Text × ProposalView → Bool) (m : Map ProposalView)
          → count test (walk m) ≡ count test m)
      → count (λ v. eqb v.proposal_id pid) (compute_proposal_views E walk now gossip)
        ≡ (if any (proposes pid) gossip.ops then 1 else 0)
  unfolding compute_proposal_views lookup
  count-compute_proposal_views walk now gossip pid walks =
      let t = record_ops E gossip.ops no_tables in
      let held : is_some (lookup pid t.proposals) ≡ any (proposes pid) gossip.ops =
        record_ops-proposes gossip.ops no_tables pid ∙ or_false (any (proposes pid) gossip.ops) in
      count-sort_latest (with_id pid) (finish_views E gossip now t (walk t.proposals))
      ∙ count-finish_views gossip now t pid (walk t.proposals)
      ∙ walks (λ entry. with_id pid entry.1) t.proposals
      ∙ count-Keyed pid t.proposals (record_ops-Keyed gossip.ops no_tables (tt, tt))
      ∙ ap (λ b. if b then 1 else 0) held
