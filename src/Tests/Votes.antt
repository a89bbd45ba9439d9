-- ===== src/Tests/Votes.antt =====
-- A proposal with two votes of three members, at a threshold of two thirds.
use dqrvcs.Prelude.{
  Bool, some_or, any, ◌++◌, inl, if◌then◌else◌, ℕ, ◌+◌, ◌*◌, ◌^◌, ◌≤◌, ◌<◌, true, false, List, [],
  ◌∷◌, ◌≡◌, ◌↔◌, refl, arith,
}
use dqrvcs.Text.{Text, codes, eqb, is_whitespace, contains}
use dqrvcs.Text.Trim.{trim}
use dqrvcs.Map.{Map, lookup, insert}
use dqrvcs.Consensus.{
  compute_proposal_views, Operation, ProposalView, GossipData, no_tables, record_ops, finish_view,
  finish_views, sort_latest, insert_latest, text_le, record_op, record_proposal, record_vote,
  count_votes, members_of, required_yes_of,
}
use dqrvcs.Consensus.Votes.{ballot, latest_vote, ballot-latest_vote}
use dqrvcs.Consensus.Quorum.{distinct, tally, finished, finished_counts, finished_bounds}
use dqrvcs.Consensus.Majority.{IsShare, quorum_iff_majority}
use dqrvcs.Consensus.Order.{
  IsDescending, count, compute_proposal_views-IsDescending, whole_second-first,
}
use dqrvcs.Consensus.Views.{proposes, count-compute_proposal_views}
use dqrvcs.Consensus.Latest.{
  latest_proposal, latest_cert, lookup-latest_proposal, finished-latest_cert,
}
use dqrvcs.Tests.Sample.{cert, fractions, Payload, proposal, vote}

abbrev ballot_by : Text → Text → Operation Payload
ballot_by author decision = record {
  id = author;
  op_type = codes "consensus.vote";
  author = author;
  seq = 1;
  timestamp = codes "t";
  payload = vote (record { proposal_id = codes "p"; decision = decision });
}

abbrev opening : Operation Payload
opening = record {
  id = codes "o";
  op_type = codes "consensus.proposal";
  author = codes "a";
  seq = 0;
  timestamp = codes "t";
  payload = proposal (record {
    proposal_id = codes "p";
    reference = codes "refs/heads/main";
    old_oid = [];
    new_oid = codes "n";
    epoch = 1;
    expires_at = [];
  });
}

abbrev log : List (Operation Payload)
log =
    opening
    ∷ ballot_by (codes "a") (codes "no")
    ∷ ballot_by (codes "b") (codes "yes")
    ∷ ballot_by (codes "a") (codes "yes")
    ∷ []

abbrev gossip : GossipData Payload (ℕ × ℕ)
gossip = record {
  node_id = codes "a";
  peers = [];
  ops = log;
  pending_pushes = [];
  consensus_threshold = (2, 3);
  consensus_members = codes "a" ∷ codes "b" ∷ codes "c" ∷ [];
}

abbrev opened : ProposalView
opened = record {
  proposal_id = codes "p";
  reference = codes "refs/heads/main";
  old_oid = [];
  new_oid = codes "n";
  epoch = 1;
  proposer = codes "a";
  created_at = codes "t";
  expires_at = [];
  yes_votes = 0;
  no_votes = 0;
  voters = 0;
  required_yes = 0;
  quorum = false;
  certified = false;
  expired = false;
}

abbrev clock : Text → ℕ
clock id = 0

abbrev view : ProposalView
view = finished fractions gossip clock (codes "p") opened

ballot-latest_vote_example :
    ballot (record_ops fractions log no_tables) (codes "p") (codes "a")
    ≡ latest_vote fractions (codes "p") (codes "a") log
ballot-latest_vote_example = ballot-latest_vote fractions log (codes "p") (codes "a")

finished_counts_example :
    (view.yes_votes
      ≡ tally
          (distinct (members_of fractions gossip))
          (λ m. latest_vote fractions (codes "p") m log)
          (codes "yes"))
    × (view.no_votes
        ≡ tally
            (distinct (members_of fractions gossip))
            (λ m. latest_vote fractions (codes "p") m log)
            (codes "no"))
finished_counts_example = finished_counts fractions gossip clock (codes "p") opened

finished_bounds_example :
    (view.yes_votes + view.no_votes ≤ view.voters)
    × (1 ≤ view.required_yes)
    × (view.required_yes ≤ view.voters)
    × ((view.quorum ≡ true) ↔ (view.required_yes ≤ view.yes_votes))
finished_bounds_example = finished_bounds fractions gossip clock (codes "p") opened

-- All three voters, of whom two said yes: not more than two thirds.
view_counts : (view.yes_votes ≡ 2) × (view.no_votes ≡ 0) × (view.voters ≡ 3) × (view.quorum ≡ false)
unfolding finish_view count_votes lookup record_ops record_op eqb codes record_vote trim
    is_whitespace insert record_proposal contains members_of required_yes_of
view_counts = (refl, refl, refl, refl)

few_voters : view.voters < 2 ^ 64
unfolding finish_view members_of
few_voters = omega arith

threshold-IsShare : IsShare fractions gossip.consensus_threshold 2 3 view.voters
unfolding finish_view members_of
threshold-IsShare = refl

quorum_iff_majority_example : (view.quorum ≡ true) ↔ (2 * view.voters < view.yes_votes * 3)
quorum_iff_majority_example =
    quorum_iff_majority fractions gossip clock (codes "p") opened 2 3 (omega arith) few_voters
      threshold-IsShare

abbrev walk : Map ProposalView → Map ProposalView
walk m = m

compute_proposal_views-IsDescending_example :
    IsDescending (compute_proposal_views fractions walk clock gossip)
compute_proposal_views-IsDescending_example =
    compute_proposal_views-IsDescending fractions walk clock gossip

-- A proposal that is made at this time.
abbrev made_at : Text → Text → Operation Payload
made_at id time = record {
  id = id;
  op_type = codes "consensus.proposal";
  author = codes "a";
  seq = 0;
  timestamp = time;
  payload = proposal (record {
    proposal_id = id;
    reference = codes "refs/heads/main";
    old_oid = [];
    new_oid = codes "n";
    epoch = 1;
    expires_at = [];
  });
}

-- The second of the two proposals is made half a second after the first.
abbrev half_later : GossipData Payload (ℕ × ℕ)
half_later = record gossip {
  ops = made_at (codes "p") (codes "12:00:33Z") ∷ made_at (codes "q") (codes "12:00:33.5Z") ∷ [];
}

abbrev half_views : List ProposalView
half_views = compute_proposal_views fractions walk clock half_later

abbrev first_view : List ProposalView → ProposalView
first_view [] = opened
first_view (p ∷ ps) = p

abbrev second_view : List ProposalView → ProposalView
second_view [] = opened
second_view (p ∷ ps) = first_view ps

two_views :
    (half_views ≡ [] ++ first_view half_views ∷ ([] ++ second_view half_views ∷ []))
    × ((first_view half_views).created_at ≡ codes "12:00:33Z")
    × ((second_view half_views).created_at ≡ codes "12:00:33.5Z")
unfolding compute_proposal_views finish_views finish_view sort_latest insert_latest text_le
    record_ops record_op eqb codes trim is_whitespace insert record_proposal
two_views = (refl, refl, refl)

whole_second-first_example : (first_view half_views).created_at ≡ codes "12:00:33" ++ codes "Z"
unfolding codes
whole_second-first_example =
    whole_second-first fractions walk clock half_later [] [] [] (first_view half_views)
      (second_view half_views) (codes "12:00:33") (codes "5Z") two_views.0
      (inl (two_views.1, two_views.2))

count-compute_proposal_views_example :
    count (λ v. eqb v.proposal_id (codes "p")) (compute_proposal_views fractions walk clock gossip)
    ≡ (if any (proposes fractions (codes "p")) log then 1 else 0)
count-compute_proposal_views_example =
    count-compute_proposal_views fractions walk clock gossip (codes "p") (λ test m. refl)

p_is_proposed : any (proposes fractions (codes "p")) log ≡ true
unfolding any proposes codes eqb trim is_whitespace
p_is_proposed = refl

abbrev certificate : Bool → Operation Payload
certificate certified = record {
  id = codes "c";
  op_type = codes "consensus.cert";
  author = codes "a";
  seq = 2;
  timestamp = codes "t";
  payload = cert (record { proposal_id = codes "p"; certified = certified });
}

lookup-latest_proposal_example :
    lookup (codes "p") (record_ops fractions log no_tables).proposals
    ≡ latest_proposal fractions (codes "p") log
lookup-latest_proposal_example = lookup-latest_proposal fractions log (codes "p")

abbrev certified_gossip : GossipData Payload (ℕ × ℕ)
certified_gossip = record gossip { ops = opening ∷ certificate false ∷ certificate true ∷ [] }

finished-latest_cert_example :
    (finished fractions certified_gossip clock (codes "p") opened).certified
    ≡ some_or (latest_cert fractions (codes "p") certified_gossip.ops) false
finished-latest_cert_example =
    finished-latest_cert fractions certified_gossip clock (codes "p") opened
