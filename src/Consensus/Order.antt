-- ===== src/Consensus/Order.antt =====
-- The order of the views: `sort_by(|a, b| b.created_at.cmp(&a.created_at))`. It is an order of texts,
-- and not of times: the log's writer leaves out a fraction of a second that is zero.
use dqrvcs.Prelude.{
  ℕ, ◌+◌, Bool, true, false, List, [], ◌∷◌, ◌≡◌, refl, arith, if◌then◌else◌, Bool-cases, inl, inr,
  ◌++◌, ◌⊎◌,
}
use dqrvcs.Text.{Text, codes}
use dqrvcs.Consensus.{
  Externals, ProposalView, GossipData, text_le, insert_latest, sort_latest, record_ops, no_tables,
  finish_views, compute_proposal_views,
}
use dqrvcs.Map.{Map}

text_le_total : (s t : Text) → text_le s t ≡ false → text_le t s ≡ true
unfolding text_le
text_le_total [] t e = grind arith
text_le_total (a ∷ s) [] e = refl
text_le_total (a ∷ s) (b ∷ t) e = ground (arith, text_le_total s t)

-- The text of its creation is at least that of the first of these.
abbrev IsFirst : ProposalView → List ProposalView → Type 0
IsFirst p [] = Unit
IsFirst p (q ∷ qs) = text_le q.created_at p.created_at ≡ true

-- By the texts of their creation, the greatest first.
abbrev pub IsDescending : List ProposalView → Type 0
IsDescending [] = Unit
IsDescending (p ∷ ps) = IsFirst p ps × IsDescending ps

insert_latest-IsFirst :
    (p q : ProposalView) (qs : List ProposalView)
    → text_le p.created_at q.created_at ≡ true
    → IsFirst q qs
    → IsFirst q (insert_latest p qs)
unfolding insert_latest
insert_latest-IsFirst p q [] e h = e
insert_latest-IsFirst p q (r ∷ rs) e h = elim (Bool-cases (text_le r.created_at p.created_at)) [
  | inl b ↦ rw b e
  | inr b ↦ rw b h
]

insert_latest-IsDescending :
    (p : ProposalView) (qs : List ProposalView)
    → IsDescending qs
    → IsDescending (insert_latest p qs)
unfolding insert_latest
insert_latest-IsDescending p [] h = (tt, tt)
insert_latest-IsDescending p (q ∷ qs) h = elim (Bool-cases (text_le q.created_at p.created_at)) [
  | inl b ↦ rw b (b, h)
  | inr b ↦ rw b (
    insert_latest-IsFirst p q qs (text_le_total q.created_at p.created_at b) h.0,
    insert_latest-IsDescending p qs h.1,
  )
]

sort_latest-IsDescending : (ps : List ProposalView) → IsDescending (sort_latest ps)
unfolding sort_latest
sort_latest-IsDescending [] = tt
sort_latest-IsDescending (p ∷ ps) =
    insert_latest-IsDescending p (sort_latest ps) (sort_latest-IsDescending ps)

-- How many items pass a test.
unfoldable pub count {ℓ} : {A : Type ℓ} → (A → Bool) → List A → ℕ
count test [] = 0
count test (a ∷ rest) = (if test a then 1 else 0) + count test rest

count-insert_latest :
    (test : ProposalView → Bool) (p : ProposalView) (qs : List ProposalView)
    → count test (insert_latest p qs) ≡ (if test p then 1 else 0) + count test qs
unfolding count insert_latest
count-insert_latest test p [] = refl
count-insert_latest test p (q ∷ qs) = elim (Bool-cases (text_le q.created_at p.created_at)) [
  | inl b ↦ rw b refl
  | inr b ↦ rw b (omega (arith, count-insert_latest test p qs))
]

pub count-sort_latest :
    (test : ProposalView → Bool) (ps : List ProposalView)
    → count test (sort_latest ps) ≡ count test ps
unfolding count sort_latest
count-sort_latest test [] = refl
count-sort_latest test (p ∷ ps) =
    omega (arith, count-insert_latest test p (sort_latest ps), count-sort_latest test ps)

-- The views are sorted by `created_at` as a text, the greatest first, in whatever order the map is
-- walked.
pub compute_proposal_views-IsDescending :
    (E : Externals) (walk : Map ProposalView → Map ProposalView) (now : Text → E.Time)
    (gossip : GossipData E.V E.F)
    → IsDescending (compute_proposal_views E walk now gossip)
unfolding compute_proposal_views
compute_proposal_views-IsDescending E walk now gossip = sort_latest-IsDescending (
    finish_views E gossip now (record_ops E gossip.ops no_tables)
      (walk (record_ops E gossip.ops no_tables).proposals))

text_le_trans : (s t u : Text) → text_le s t ≡ true → text_le t u ≡ true → text_le s u ≡ true
unfolding text_le
text_le_trans [] t u e f = refl
text_le_trans (a ∷ s) [] u e f = absurd (cc)
text_le_trans (a ∷ s) (b ∷ t) [] e f = absurd (cc)
text_le_trans (a ∷ s) (b ∷ t) (c ∷ u) e f = ground (arith, text_le_trans s t u)

-- A text with a full stop where another ends in `Z` is smaller.
stop_below_z :
    (stamp fraction : Text) → text_le (stamp ++ codes "Z") (stamp ++ b'.' ∷ fraction) ≡ false
unfolding text_le codes
stop_below_z [] fraction = refl
stop_below_z (a ∷ stamp) fraction = ground (arith, stop_below_z stamp fraction)

-- A view is at most one that stands before it.
before_is_greater :
    (p : ProposalView) (ys : List ProposalView) (q : ProposalView) (zs : List ProposalView)
    → IsDescending (p ∷ (ys ++ q ∷ zs))
    → text_le q.created_at p.created_at ≡ true
before_is_greater p [] q zs h = h.0
before_is_greater p (r ∷ rs) q zs h =
    text_le_trans q.created_at r.created_at p.created_at (before_is_greater r rs q zs h.1) h.0

from_here : (xs ys : List ProposalView) → IsDescending (xs ++ ys) → IsDescending ys
from_here [] ys h = h
from_here (x ∷ xs) ys h = from_here xs ys h.1

-- Of two texts one is at the start of a second, and the other is within that second, with a
-- fraction.
abbrev pub InOneSecond : Text → Text → Text → Text → Type 0
InOneSecond stamp fraction s t =
    ((s ≡ stamp ++ codes "Z") × (t ≡ stamp ++ b'.' ∷ fraction))
    ⊎ ((s ≡ stamp ++ b'.' ∷ fraction) × (t ≡ stamp ++ codes "Z"))

whole_is_greater :
    (stamp fraction s t : Text)
    → InOneSecond stamp fraction s t
    → text_le t s ≡ true
    → s ≡ stamp ++ codes "Z"
whole_is_greater stamp fraction s t (inl whole) e = whole.0
whole_is_greater stamp fraction s t (inr within) e =
    let stopped : text_le (stamp ++ codes "Z") (stamp ++ b'.' ∷ fraction) ≡ true =
      rw (within.0, within.1) at e in
    let below = stop_below_z stamp fraction in absurd (cc)

-- Of two views created in one second, one with the text of its start and one with that of a
-- fraction of it, the one of the start stands first.
pub whole_second-first :
    (E : Externals) (walk : Map ProposalView → Map ProposalView) (now : Text → E.Time)
    (gossip : GossipData E.V E.F) (xs ys zs : List ProposalView) (p q : ProposalView)
    (stamp fraction : Text)
    → compute_proposal_views E walk now gossip ≡ xs ++ p ∷ (ys ++ q ∷ zs)
    → InOneSecond stamp fraction p.created_at q.created_at
    → p.created_at ≡ stamp ++ codes "Z"
whole_second-first E walk now gossip xs ys zs p q stamp fraction views within =
    let sorted : IsDescending (xs ++ p ∷ (ys ++ q ∷ zs)) =
      rw views at (compute_proposal_views-IsDescending E walk now gossip) in
    whole_is_greater stamp fraction p.created_at q.created_at within
      (before_is_greater p ys q zs (from_here xs (p ∷ (ys ++ q ∷ zs)) sorted))
