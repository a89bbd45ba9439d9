-- ===== src/Consensus.antt =====
-- The consensus tables of the desktop client (gui/src/main.rs): the payload types, `Operation`,
-- `ProposalView`, `GossipData`, and `compute_proposal_views`.
pub mod Votes
pub mod Quorum
pub mod Majority
pub mod Order
pub mod Views
pub mod Latest
use dqrvcs.Prelude.{
  ℕ, zero, suc, ◌+◌, ◌%◌, ◌^◌, min, max, ℤ, Bool, true, false, not, ◌&&◌, ◌||◌, List, [], ◌∷◌, ◌++◌,
  ◌==◌, ltb, leb, if◌then◌else◌, is_empty, map, length, Option, none, some, some_or,
}
use dqrvcs.Text.{Text, codes, eqb, contains}
use dqrvcs.Text.Trim.{trim, is_blank}
use dqrvcs.Map.{Map, lookup, insert, set_insert}

pub record PendingPush : Type 0 where
  pub proposal_id : Text
  pub remote : Text
  pub target_ref : Text
  pub new_oid : Text
  pub status : Text
  pub attempts : ℤ
  pub last_error : Text

-- `V` is `serde_json::Value`.
pub record Operation (V : Type 0) : Type 0 where
  pub id : Text
  pub op_type : Text
  pub author : Text
  pub seq : ℕ
  pub timestamp : Text
  pub payload : V

pub record ProposalPayload : Type 0 where
  pub proposal_id : Text
  pub reference : Text
  pub old_oid : Text
  pub new_oid : Text
  pub epoch : ℕ
  pub expires_at : Text

pub record VotePayload : Type 0 where
  pub proposal_id : Text
  pub decision : Text

pub record CertPayload : Type 0 where
  pub proposal_id : Text
  pub certified : Bool

pub record ProposalView : Type 0 where
  pub proposal_id : Text
  pub reference : Text
  pub old_oid : Text
  pub new_oid : Text
  pub epoch : ℕ
  pub proposer : Text
  pub created_at : Text
  pub expires_at : Text
  pub yes_votes : ℕ
  pub no_votes : ℕ
  pub voters : ℕ
  pub required_yes : ℕ
  pub quorum : Bool
  pub certified : Bool
  pub expired : Bool

-- `F` is `f64`.
pub record GossipData (V F : Type 0) : Type 0 where
  pub node_id : Text
  pub peers : List Text
  pub ops : List (Operation V)
  pub pending_pushes : List PendingPush
  pub consensus_threshold : F
  pub consensus_members : List Text

-- What the standard library and the crates give: `f64`, `serde_json::from_value` at the three
-- payload types, `str::to_lowercase`, and chrono's times with `parse_from_rfc3339` and `>`.
pub record Externals : Type 1 where
  pub V : Type 0
  pub F : Type 0
  pub Time : Type 0
  pub zero : F
  pub half : F
  pub is_zero : F → Bool
  pub of_usize : ℕ → F
  pub mul : F → F → F
  pub floor : F → F
  pub to_usize : F → ℕ
  pub proposal_of : V → Option ProposalPayload
  pub vote_of : V → Option VotePayload
  pub cert_of : V → Option CertPayload
  pub to_lowercase : Text → Text
  pub parse_ts : Text → Option Time
  pub after : Time → Time → Bool

-- The three maps of the first loop.
pub record Tables : Type 0 where
  pub proposals : Map ProposalView
  pub vote_by_proposal : Map (Map Text)
  pub cert_by_proposal : Map Bool

abbrev pub no_tables : Tables
no_tables = record { proposals = []; vote_by_proposal = []; cert_by_proposal = [] }

-- `cmp` of strings, as "at most".
unfoldable pub text_le : Text → Text → Bool
text_le [] t = true
text_le (a ∷ s) [] = false
text_le (a ∷ s) (b ∷ t) = if a == b then text_le s t else ltb a b

-- Into a list with the greatest text of creation first, in front of what has the same.
unfoldable pub insert_latest : ProposalView → List ProposalView → List ProposalView
unfolding text_le
insert_latest p [] = p ∷ []
insert_latest p (q ∷ qs) =
    if text_le q.created_at p.created_at then p ∷ q ∷ qs else q ∷ insert_latest p qs

-- `sort_by(|a, b| b.created_at.cmp(&a.created_at))`, which is stable.
unfoldable pub sort_latest : List ProposalView → List ProposalView
unfolding insert_latest
sort_latest [] = []
sort_latest (p ∷ ps) = insert_latest p (sort_latest ps)

unfoldable pub count_votes : List Text → Text → Map Text → ℕ
count_votes members wanted [] = 0
count_votes members wanted ((author, decision) ∷ voters) =
    (if contains members author && eqb decision wanted then 1 else 0)
    + count_votes members wanted voters

module _ (E : Externals) where
  open E use {
    V, F, Time, parse_ts, after, of_usize, mul, floor, to_usize, proposal_of, vote_of, cert_of,
    to_lowercase,
  }

  unfoldable pub view_of : Operation V → ProposalPayload → ProposalView
  view_of op payload = record {
    proposal_id = payload.proposal_id;
    reference = payload.reference;
    old_oid = payload.old_oid;
    new_oid = payload.new_oid;
    epoch = payload.epoch;
    proposer = op.author;
    created_at = op.timestamp;
    expires_at = payload.expires_at;
    yes_votes = 0;
    no_votes = 0;
    voters = 0;
    required_yes = 0;
    quorum = false;
    certified = false;
    expired = false;
  }

  unfoldable pub record_proposal : Operation V → Tables → Tables
  unfolding view_of
  record_proposal op t = elim (proposal_of op.payload) [
    | none ↦ t
    | some payload ↦
        if is_blank payload.proposal_id
        then t
        else record t { proposals = insert payload.proposal_id (view_of op payload) t.proposals }
  ]

  unfoldable pub record_vote : Operation V → Tables → Tables
  record_vote op t = elim (vote_of op.payload) [
    | none ↦ t
    | some payload ↦ if is_blank payload.proposal_id || is_blank op.author then t else record t {
      vote_by_proposal =
          insert payload.proposal_id
            (insert op.author (to_lowercase payload.decision)
              (some_or (lookup payload.proposal_id t.vote_by_proposal) []))
            t.vote_by_proposal;
    }
  ]

  unfoldable pub record_cert : Operation V → Tables → Tables
  record_cert op t = elim (cert_of op.payload) [
    | none ↦ t
    | some payload ↦ if is_blank payload.proposal_id then t else record t {
      cert_by_proposal = insert payload.proposal_id payload.certified t.cert_by_proposal;
    }
  ]

  -- The body of the first loop.
  unfoldable pub record_op : Operation V → Tables → Tables
  record_op op t =
      if eqb op.op_type (codes "consensus.proposal")
      then record_proposal op t
      else if eqb op.op_type (codes "consensus.vote")
      then record_vote op t
      else if eqb op.op_type (codes "consensus.cert")
      then record_cert op t
      else t

  unfoldable pub record_ops : List (Operation V) → Tables → Tables
  record_ops [] t = t
  record_ops (op ∷ ops) t = record_ops ops (record_op op t)

  unfoldable pub authors_of : List (Operation V) → List Text → List Text
  authors_of [] authors = authors
  authors_of (op ∷ ops) authors =
      authors_of ops (if is_blank op.author then authors else set_insert op.author authors)

  unfoldable pub all_authors : GossipData V F → List Text
  all_authors gossip =
      let authors = authors_of gossip.ops [] in
      if is_blank gossip.node_id then authors else set_insert gossip.node_id authors

  unfoldable pub members_of : GossipData V F → List Text
  members_of gossip =
      if is_empty gossip.consensus_members then all_authors gossip else gossip.consensus_members

  -- `(floor(threshold * voter_count) as usize + 1).clamp(1, voter_count)`. The sum wraps, as in a
  -- release build; for the other builds, see `sums_overflow`.
  unfoldable pub required_yes_of : F → ℕ → ℕ
  required_yes_of threshold voter_count =
      max 1
        (min voter_count ((to_usize (floor (mul threshold (of_usize voter_count))) + 1) % 2 ^ 64))

  -- `parse_ts(&p.expires_at).map(|dt| Utc::now() > dt).unwrap_or(false)`, unless blank.
  unfoldable pub is_expired : Time → Text → Bool
  is_expired now expires_at =
      if is_blank expires_at
      then false
      else elim (parse_ts expires_at) [ none ↦ false | some dt ↦ after now dt ]

  -- The body of the last loop. `now` is what the clock shows when a proposal is finished, by its
  -- id.
  unfoldable pub finish_view :
      GossipData V F → (Text → Time) → Tables → Text → ProposalView → ProposalView
  finish_view gossip now t proposal_id p =
      let members = members_of gossip in
      let voters = some_or (lookup proposal_id t.vote_by_proposal) [] in
      let yes = count_votes members (codes "yes") voters in
      let no_count = count_votes members (codes "no") voters in
      let voter_count = max (length members) 1 in
      let required = required_yes_of gossip.consensus_threshold voter_count in
      record p {
        yes_votes = yes;
        no_votes = no_count;
        voters = voter_count;
        required_yes = required;
        quorum = leb required yes;
        certified = some_or (lookup proposal_id t.cert_by_proposal) false;
        expired = is_expired (now proposal_id) p.expires_at;
      }

  unfoldable pub finish_views :
      GossipData V F → (Text → Time) → Tables → Map ProposalView → List ProposalView
  finish_views gossip now t [] = []
  finish_views gossip now t ((proposal_id, p) ∷ rest) =
      finish_view gossip now t proposal_id p ∷ finish_views gossip now t rest

  -- Where overflow is checked, the sum for `required_yes` panics; it is made for each proposal, from
  -- the same threshold and members.
  unfoldable pub sums_overflow : GossipData V F → Bool
  sums_overflow gossip =
      let voter_count = max (length (members_of gossip)) 1 in
      let product = mul gossip.consensus_threshold (of_usize voter_count) in
      not (is_empty (record_ops gossip.ops no_tables).proposals)
      && leb (2 ^ 64) (to_usize (floor product) + 1)

  -- `walk` is the order in which the map of proposals is walked.
  unfoldable pub compute_proposal_views :
      (Map ProposalView → Map ProposalView) → (Text → Time) → GossipData V F → List ProposalView
  compute_proposal_views walk now gossip =
      let t = record_ops gossip.ops no_tables in
      sort_latest (finish_views gossip now t (walk t.proposals))
