-- ===== src/Conflict/Compose.antt =====
-- The line loop of one hunk, as a recursion over the three lists.
use dqrvcs.Prelude.{ℕ, zero, suc, List, [], ◌∷◌, ◌++◌, ◌≡◌, refl, ap, ap₂, ◌∙◌, get_elem?, some_or}
use dqrvcs.Text.{Text}
use dqrvcs.Conflict.{ConflictLineSource, ours, theirs, ConflictHunk, chosen, compose_from}

abbrev pub tail {ℓ} : {A : Type ℓ} → List A → List A
tail [] = []
tail (x ∷ xs) = xs

get_elem?-tail {ℓ} :
    {A : Type ℓ} (xs : List A) (i : ℕ) → get_elem? xs (suc i) ≡ get_elem? (tail xs) i
get_elem?-tail [] i = refl
get_elem?-tail (x ∷ xs) i = refl

abbrev pub shift : ConflictHunk → ConflictHunk
shift h = record {
  ours_lines = tail h.ours_lines;
  theirs_lines = tail h.theirs_lines;
  choices = tail h.choices;
}

chosen-tail :
    (s : ConflictLineSource) (os ts : List Text) (i : ℕ)
    → chosen s os ts (suc i) ≡ chosen s (tail os) (tail ts) i
chosen-tail ours os ts i = ap (λ o. some_or o []) (get_elem?-tail os i)
chosen-tail theirs os ts i = ap (λ o. some_or o []) (get_elem?-tail ts i)

compose_from-shift :
    (n i : ℕ) (h : ConflictHunk) → compose_from n (suc i) h ≡ compose_from n i (shift h)
unfolding compose_from
compose_from-shift zero i h = refl
compose_from-shift (suc n) i h =
    ap₂ (λ s t. s ++ t)
      (chosen-tail (some_or (get_elem? h.choices (suc i)) ours) h.ours_lines h.theirs_lines i
        ∙ ap (λ o. chosen (some_or o ours) (tail h.ours_lines) (tail h.theirs_lines) i)
            (get_elem?-tail h.choices i))
      (compose_from-shift n (suc i) h)

-- The loop over a hunk, one line at a time.
abbrev pub compose_lines : ℕ → List ConflictLineSource → List Text → List Text → Text
compose_lines zero cs os ts = []
compose_lines (suc n) cs os ts =
    chosen (some_or (get_elem? cs 0) ours) os ts 0 ++ compose_lines n (tail cs) (tail os) (tail ts)

pub compose_from-compose_lines :
    (n : ℕ) (h : ConflictHunk)
    → compose_from n 0 h ≡ compose_lines n h.choices h.ours_lines h.theirs_lines
unfolding compose_from
compose_from-compose_lines zero h = refl
compose_from-compose_lines (suc n) h =
    ap (λ t. chosen (some_or (get_elem? h.choices 0) ours) h.ours_lines h.theirs_lines 0 ++ t)
      (compose_from-shift n 0 h ∙ compose_from-compose_lines n (shift h))
