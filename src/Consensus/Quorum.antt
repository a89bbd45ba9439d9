-- ===== src/Consensus/Quorum.antt =====
-- What the counts of a finished view mean, and when it has its quorum.
use mathlib.Core.Path.{fun_ext}
use dqrvcs.Prelude.{
  ℕ, ◌+◌, ◌≤◌, Bool, true, false, ◌&&◌, List, [], ◌∷◌, ◌≡◌, ◌↔◌, refl, sym, ap, ap₂, ◌∙◌, arith,
  if◌then◌else◌, Option, none, some, Bool-cases, inl, inr, length,
}
use dqrvcs.Text.{Text, codes, eqb, eqb_iff, contains}
use dqrvcs.Map.{Map, lookup, IsUnique}
use dqrvcs.Consensus.{
  Externals, ProposalView, GossipData, no_tables, record_ops, count_votes, members_of,
  required_yes_of, finish_view,
}
use dqrvcs.Consensus.Votes.{
  ballots, latest_vote, ballot-latest_vote, record_ops-OneBallot, no_tables-OneBallot,
}

-- The members, each once.
unfoldable pub distinct : List Text → List Text
distinct [] = []
distinct (m ∷ ms) = let rest = distinct ms in if contains ms m then rest else m ∷ rest

abbrev says : Option Text → Text → Bool
says none wanted = false
says (some d) wanted = eqb d wanted

-- How many of these authors answer `wanted`.
unfoldable pub tally : List Text → (Text → Option Text) → Text → ℕ
tally [] answer wanted = 0
tally (m ∷ ms) answer wanted = (if says (answer m) wanted then 1 else 0) + tally ms answer wanted

abbrev NoRepeat : List Text → Type 0
NoRepeat [] = Unit
NoRepeat (m ∷ ms) = (contains ms m ≡ false) × NoRepeat ms

contains-distinct : (ms : List Text) (a : Text) → contains (distinct ms) a ≡ contains ms a
unfolding contains distinct
contains-distinct [] a = refl
contains-distinct (m ∷ ms) a = ground (arith, contains-distinct ms a, eqb_iff m a)

distinct-NoRepeat : (ms : List Text) → NoRepeat (distinct ms)
unfolding distinct
distinct-NoRepeat [] = tt
distinct-NoRepeat (m ∷ ms) = elim (Bool-cases (contains ms m)) [
  | inl e ↦ rw e (distinct-NoRepeat ms)
  | inr e ↦ rw e (contains-distinct ms m ∙ e, distinct-NoRepeat ms)
]

length-distinct : (ms : List Text) → length (distinct ms) ≤ length ms
unfolding distinct
length-distinct [] = omega arith
length-distinct (m ∷ ms) = ground (arith, length-distinct ms)

tally_nil : (ms : List Text) (wanted : Text) → tally ms (λ m. lookup m []) wanted ≡ 0
unfolding tally lookup
tally_nil [] wanted = refl
tally_nil (m ∷ ms) wanted = omega (arith, tally_nil ms wanted)

tally_add :
    (ms : List Text) (a d wanted : Text) (rest : Map Text)
    → NoRepeat ms
    → lookup a rest ≡ none
    → tally ms (λ m. lookup m ((a, d) ∷ rest)) wanted
      ≡ (if contains ms a && eqb d wanted then 1 else 0) + tally ms (λ m. lookup m rest) wanted
unfolding tally contains lookup
tally_add [] a d wanted rest h fresh = refl
tally_add (m ∷ ms) a d wanted rest h fresh =
    ground (arith, tally_add ms a d wanted rest h.1 fresh, eqb_iff a m, eqb_iff m a)

count_votes-tally :
    (members : List Text) (wanted : Text) (voters : Map Text)
    → IsUnique voters
    → count_votes members wanted voters ≡ tally (distinct members) (λ m. lookup m voters) wanted
unfolding count_votes
count_votes-tally members wanted [] u = sym (tally_nil (distinct members) wanted)
count_votes-tally members wanted ((a, d) ∷ voters) u =
    ap₂ (λ (x : Bool) (n : ℕ). (if x && eqb d wanted then 1 else 0) + n)
      (sym (contains-distinct members a)) (count_votes-tally members wanted voters u.1)
    ∙ sym (tally_add (distinct members) a d wanted voters (distinct-NoRepeat members) u.0)

yes_not_no : (d : Text) → eqb d (codes "yes") ≡ true → eqb d (codes "no") ≡ false
unfolding codes eqb
yes_not_no d h = rw ((eqb_iff d (codes "yes")).0 h)

says_one :
    (o : Option Text)
    → (if says o (codes "yes") then 1 else 0) + (if says o (codes "no") then 1 else 0) ≤ 1
says_one none = omega arith
says_one (some d) = ground (arith, yes_not_no d)

tally_bound :
    (ms : List Text) (answer : Text → Option Text)
    → tally ms answer (codes "yes") + tally ms answer (codes "no") ≤ length ms
unfolding tally
tally_bound [] answer = omega arith
tally_bound (m ∷ ms) answer = omega (arith, tally_bound ms answer, says_one (answer m))

module _ (E : Externals) (gossip : GossipData E.V E.F) (now : Text → E.Time) where
  -- A proposal as the last loop leaves it.
  abbrev pub finished : Text → ProposalView → ProposalView
  finished pid p = finish_view E gossip now (record_ops E gossip.ops no_tables) pid p

  voters_latest :
      (pid wanted : Text)
      → count_votes (members_of E gossip) wanted (ballots (record_ops E gossip.ops no_tables) pid)
        ≡ tally (distinct (members_of E gossip)) (λ m. latest_vote E pid m gossip.ops) wanted
  voters_latest pid wanted =
      count_votes-tally (members_of E gossip) wanted _
        (record_ops-OneBallot E gossip.ops no_tables (no_tables-OneBallot E) pid)
      ∙ ap (λ answer. tally (distinct (members_of E gossip)) answer wanted)
          (fun_ext (λ m. ballot-latest_vote E gossip.ops pid m))

  -- The yes and no counts are over the members, each once, by their last vote on the proposal.
  pub finished_counts :
      (pid : Text) (p : ProposalView)
      → ((finished pid p).yes_votes
          ≡ tally
              (distinct (members_of E gossip))
              (λ m. latest_vote E pid m gossip.ops)
              (codes "yes"))
        × ((finished pid p).no_votes
            ≡ tally
                (distinct (members_of E gossip))
                (λ m. latest_vote E pid m gossip.ops)
                (codes "no"))
  unfolding finish_view
  finished_counts pid p = (voters_latest pid (codes "yes"), voters_latest pid (codes "no"))

  -- Votes never outnumber voters, the required yes votes are at least one and at most all voters,
  -- and the quorum flag says whether the yes votes reach them.
  pub finished_bounds :
      (pid : Text) (p : ProposalView)
      → let q = finished pid p in
        (q.yes_votes + q.no_votes ≤ q.voters)
        × (1 ≤ q.required_yes)
        × (q.required_yes ≤ q.voters)
        × ((q.quorum ≡ true) ↔ (q.required_yes ≤ q.yes_votes))
  unfolding finish_view required_yes_of
  finished_bounds pid p =
      let members = members_of E gossip in
      let answer : Text → Option Text = λ m. latest_vote E pid m gossip.ops in
      (
        omega (
          arith,
          voters_latest pid (codes "yes"),
          voters_latest pid (codes "no"),
          tally_bound (distinct members) answer,
          length-distinct members,
        ),
        omega arith,
        omega arith,
        ground arith,
      )
