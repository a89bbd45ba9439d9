-- ===== src/Consensus/Votes.antt =====
-- What the table of votes holds after the operation log is read.
use dqrvcs.Prelude.{
  Bool, true, false, not, ◌&&◌, ◌||◌, List, [], ◌∷◌, ◌≡◌, refl, ap, ◌∙◌, arith, if◌then◌else◌,
  Option, none, some, some_or, Bool-cases, inl, inr,
}
use dqrvcs.Text.{Text, codes, eqb, eqb_iff}
use dqrvcs.Text.Trim.{is_blank}
use dqrvcs.Map.{Map, lookup, insert, lookup-insert, IsUnique, insert-IsUnique}
use dqrvcs.Consensus.{
  Externals, Operation, VotePayload, Tables, no_tables, record_proposal, record_vote, record_cert,
  record_op, record_ops,
}

-- The newer of two answers, where there is one.
abbrev pub newer : Option Text → Option Text → Option Text
newer none old = old
newer (some a) old = some a

abbrev pub ballots : Tables → Text → Map Text
ballots t pid = some_or (lookup pid t.vote_by_proposal) []

-- The ballot of `author` on `pid`.
abbrev pub ballot : Tables → Text → Text → Option Text
ballot t pid author = lookup author (ballots t pid)

newer-if :
    (b : Bool) (d : Text) (old : Option Text)
    → (if b then some d else old) ≡ newer (if b then some d else none) old
newer-if true d old = refl
newer-if false d old = refl

ballot-insert :
    (votes : Map (Map Text)) (key by d pid author : Text)
    → lookup author
        (some_or (lookup pid (insert key (insert by d (some_or (lookup key votes) [])) votes)) [])
      ≡ (if eqb key pid && eqb by author
          then some d
          else lookup author (some_or (lookup pid votes) []))
ballot-insert votes key by d pid author = elim (Bool-cases (eqb key pid)) [
  | inl e ↦
      rw (lookup-insert, e)
        (rw (lookup-insert by author d (some_or (lookup key votes) []), (eqb_iff key pid).0 e) refl)
  | inr e ↦ rw (lookup-insert, e)
]

module _ (E : Externals) where
  open E use {V, vote_of, to_lowercase}

  -- The vote of `author` on `pid` that a payload is.
  abbrev pub payload_vote : Text → Text → Text → Option VotePayload → Option Text
  payload_vote pid author by none = none
  payload_vote pid author by (some payload) =
      if not (is_blank payload.proposal_id)
        && not (is_blank by)
        && eqb payload.proposal_id pid
        && eqb by author
      then some (to_lowercase payload.decision)
      else none

  -- The vote of `author` on `pid` that an operation casts.
  unfoldable pub vote_on : Text → Text → Operation V → Option Text
  vote_on pid author op =
      if eqb op.op_type (codes "consensus.vote")
      then payload_vote pid author op.author (vote_of op.payload)
      else none

  -- The last vote of `author` on `pid`.
  unfoldable pub latest_vote : Text → Text → List (Operation V) → Option Text
  latest_vote pid author [] = none
  latest_vote pid author (op ∷ ops) = newer (latest_vote pid author ops) (vote_on pid author op)

  vote_cast :
      (op : Operation V) (t : Tables) (pid author : Text) (o : Option VotePayload)
      → vote_of op.payload ≡ o
      → ballot (record_vote E op t) pid author
        ≡ newer (payload_vote pid author op.author o) (ballot t pid author)
  unfolding record_vote
  vote_cast op t pid author none e = rw (e, record_vote) refl
  vote_cast op t pid author (some payload) e = elim (Bool-cases (is_blank payload.proposal_id)) [
    | inl b ↦ rw (e, record_vote, b) refl
    | inr b ↦ elim (Bool-cases (is_blank op.author)) [
      | inl c ↦ rw (e, record_vote, b, c) refl
      | inr c ↦
          rw (e, record_vote, b, c)
            (ballot-insert t.vote_by_proposal payload.proposal_id op.author
                (to_lowercase payload.decision) pid author
              ∙ newer-if (eqb payload.proposal_id pid && eqb op.author author)
                  (to_lowercase payload.decision) (ballot t pid author))
    ]
  ]

  pub record_proposal-votes :
      (op : Operation V) (t : Tables)
      → (record_proposal E op t).vote_by_proposal ≡ t.vote_by_proposal
  unfolding record_proposal
  record_proposal-votes op t = ground arith

  pub record_cert-votes :
      (op : Operation V) (t : Tables) → (record_cert E op t).vote_by_proposal ≡ t.vote_by_proposal
  unfolding record_cert
  record_cert-votes op t = ground arith

  proposal_not_vote :
      (ty : Text) → ty ≡ codes "consensus.proposal" → eqb ty (codes "consensus.vote") ≡ false
  unfolding codes eqb
  proposal_not_vote ty e = rw e

  record_op-ballot :
      (op : Operation V) (t : Tables) (pid author : Text)
      → ballot (record_op E op t) pid author ≡ newer (vote_on pid author op) (ballot t pid author)
  unfolding record_op vote_on
  record_op-ballot op t pid author =
      elim (Bool-cases (eqb op.op_type (codes "consensus.proposal"))) [
        | inl p ↦
            rw
              (
                p,
                proposal_not_vote op.op_type
                    ((eqb_iff op.op_type (codes "consensus.proposal")).0 p),
              )
              (ap (λ v. lookup author (some_or (lookup pid v) [])) (record_proposal-votes op t))
        | inr p ↦ elim (Bool-cases (eqb op.op_type (codes "consensus.vote"))) [
          | inl v ↦ rw (p, v) (vote_cast op t pid author (vote_of op.payload) refl)
          | inr v ↦ elim (Bool-cases (eqb op.op_type (codes "consensus.cert"))) [
            | inl c ↦
                rw (p, v, c)
                  (ap (λ v. lookup author (some_or (lookup pid v) [])) (record_cert-votes op t))
            | inr c ↦ rw (p, v, c)
          ]
        ]
      ]

  newer-newer : (a b c : Option Text) → newer a (newer b c) ≡ newer (newer a b) c
  newer-newer none b c = refl
  newer-newer (some a) b c = refl

  record_ops-ballot :
      (ops : List (Operation V)) (t : Tables) (pid author : Text)
      → ballot (record_ops E ops t) pid author
        ≡ newer (latest_vote pid author ops) (ballot t pid author)
  unfolding record_ops latest_vote
  record_ops-ballot [] t pid author = refl
  record_ops-ballot (op ∷ ops) t pid author =
      record_ops-ballot ops (record_op E op t) pid author
      ∙ ap (newer (latest_vote pid author ops)) (record_op-ballot op t pid author)
      ∙ newer-newer (latest_vote pid author ops) (vote_on pid author op) (ballot t pid author)

  newer-none : (a : Option Text) → newer a none ≡ a
  newer-none none = refl
  newer-none (some a) = refl

  -- After the log is read, the table of votes holds for a proposal and an author the last vote of
  -- that author on it, lower-cased, and nothing where there is none.
  pub ballot-latest_vote :
      (ops : List (Operation V)) (pid author : Text)
      → ballot (record_ops E ops no_tables) pid author ≡ latest_vote pid author ops
  unfolding lookup
  ballot-latest_vote ops pid author =
      record_ops-ballot ops no_tables pid author ∙ newer-none (latest_vote pid author ops)

  -- No author has two ballots on one proposal.
  abbrev OneBallot : Tables → Type 0
  OneBallot t = (pid : Text) → IsUnique (ballots t pid)

  insert-OneBallot :
      (votes : Map (Map Text)) (key by d : Text)
      → ((pid : Text) → IsUnique (some_or (lookup pid votes) []))
      → (pid : Text)
      → IsUnique
          (some_or (lookup pid (insert key (insert by d (some_or (lookup key votes) [])) votes)) [])
  insert-OneBallot votes key by d u pid = elim (Bool-cases (eqb key pid)) [
    | inl e ↦ rw (lookup-insert, e) (insert-IsUnique by d (some_or (lookup key votes) []) (u key))
    | inr e ↦ rw (lookup-insert, e) (u pid)
  ]

  vote_cast-OneBallot :
      (op : Operation V) (t : Tables) (o : Option VotePayload)
      → vote_of op.payload ≡ o
      → OneBallot t
      → OneBallot (record_vote E op t)
  unfolding record_vote
  vote_cast-OneBallot op t none e u = rw (e, record_vote) u
  vote_cast-OneBallot op t (some payload) e u =
      elim (Bool-cases (is_blank payload.proposal_id || is_blank op.author)) [
        | inl b ↦ rw (e, record_vote, b) u
        | inr b ↦
            rw (e, record_vote, b)
              (insert-OneBallot t.vote_by_proposal payload.proposal_id op.author
                (to_lowercase payload.decision) u)
      ]

  record_op-OneBallot : (op : Operation V) (t : Tables) → OneBallot t → OneBallot (record_op E op t)
  unfolding record_op
  record_op-OneBallot op t u = elim (Bool-cases (eqb op.op_type (codes "consensus.proposal"))) [
    | inl p ↦ rw (p, record_proposal-votes op t) u
    | inr p ↦ elim (Bool-cases (eqb op.op_type (codes "consensus.vote"))) [
      | inl v ↦ rw (p, v) (vote_cast-OneBallot op t (vote_of op.payload) refl u)
      | inr v ↦ elim (Bool-cases (eqb op.op_type (codes "consensus.cert"))) [
        | inl c ↦ rw (p, v, c) (rw (record_cert-votes op t) u)
        | inr c ↦ rw (p, v, c) u
      ]
    ]
  ]

  pub record_ops-OneBallot :
      (ops : List (Operation V)) (t : Tables) → OneBallot t → OneBallot (record_ops E ops t)
  unfolding record_ops
  record_ops-OneBallot [] t u = u
  record_ops-OneBallot (op ∷ ops) t u =
      record_ops-OneBallot ops (record_op E op t) (record_op-OneBallot op t u)

  pub no_tables-OneBallot : OneBallot no_tables
  unfolding lookup
  no_tables-OneBallot pid = tt
