-- ===== src/Consensus/Majority.antt =====
-- The quorum rule of README.md, a share of the voters, against the sum that
-- `compute_proposal_views` (gui/src/main.rs) computes for it.
use native.Mathlib.Nat.{div-lt_iff_lt-mul}
use dqrvcs.Prelude.{ℕ, ◌+◌, ◌*◌, ◌/◌, ◌%◌, ◌^◌, ◌≤◌, ◌<◌, true, ◌≡◌, ◌↔◌, refl, ◌∙◌, arith}
use dqrvcs.Text.{Text}
use dqrvcs.Consensus.{Externals, ProposalView, GossipData, required_yes_of, finish_view}
use dqrvcs.Consensus.Quorum.{finished, finished_bounds}

-- The product of the threshold and `n`, rounded down, is that of the fraction `p / d` and `n`.
abbrev pub IsShare : (E : Externals) → E.F → ℕ → ℕ → ℕ → Type 0
IsShare E threshold p d n = E.to_usize (E.floor (E.mul threshold (E.of_usize n))) ≡ p * n / d

module _ (p d n : ℕ) (proper : p < d) where
  share_lt : 0 < n → p * n / d < n
  share_lt some = (div-lt_iff_lt-mul {k = d} {x = p * n} {y = n} (omega arith)).1 (grind arith)

  -- The least number of votes above the share.
  above_share : (votes : ℕ) → (p * n / d + 1 ≤ votes) ↔ (p * n < votes * d)
  above_share votes =
      let law = div-lt_iff_lt-mul {k = d} {x = p * n} {y = votes} (omega arith) in
      (λ h. law.0 (omega arith), λ h. let below = law.1 h in omega arith)

  required_exact :
      (E : Externals) (threshold : E.F)
      → 0 < n
      → n < 2 ^ 64
      → IsShare E threshold p d n
      → required_yes_of E threshold n ≡ p * n / d + 1
  unfolding required_yes_of
  required_exact E threshold some fits share =
      let below = share_lt some in
      let kept : (p * n / d + 1) % 2 ^ 64 ≡ p * n / d + 1 = omega arith in
      rw (share, kept) (omega arith)

finished_required :
    (E : Externals) (gossip : GossipData E.V E.F) (now : Text → E.Time) (pid : Text)
    (v : ProposalView)
    → let q = finished E gossip now pid v in
      q.required_yes ≡ required_yes_of E gossip.consensus_threshold q.voters
unfolding finish_view
finished_required E gossip now pid v = refl

-- With a threshold of `p / d` below 1, fewer than 2^64 voters, and a product of threshold and
-- voters that rounds down as the fraction does, a proposal has its quorum exactly if its yes votes
-- are strictly more than `p / d` of the voters.
pub quorum_iff_majority :
    (E : Externals) (gossip : GossipData E.V E.F) (now : Text → E.Time) (pid : Text)
    (v : ProposalView) (p d : ℕ)
    → p < d
    → (finished E gossip now pid v).voters < 2 ^ 64
    → IsShare E gossip.consensus_threshold p d (finished E gossip now pid v).voters
    → ((finished E gossip now pid v).quorum ≡ true)
      ↔ (p * (finished E gossip now pid v).voters < (finished E gossip now pid v).yes_votes * d)
quorum_iff_majority E gossip now pid v p d proper fits share =
    let q = finished E gossip now pid v in
    let bounds = finished_bounds E gossip now pid v in
    let least =
      finished_required E gossip now pid v
      ∙ required_exact p d q.voters proper E gossip.consensus_threshold (omega arith) fits share in
    let share_law = above_share p d q.voters proper q.yes_votes in
    (
      λ h. share_law.0 (omega (arith, least, bounds.3.0 h)),
      λ h. bounds.3.1 (omega (arith, least, share_law.1 h)),
    )
