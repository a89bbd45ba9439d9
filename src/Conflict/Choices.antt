-- ===== src/Conflict/Choices.antt =====
-- What one hunk composes to under the three ways to choose: all lines ours, all lines theirs, and
-- the choices that the parser sets.
use dqrvcs.Prelude.{
  ℕ, zero, suc, ◌+◌, ◌≤◌, ◌<◌, List, [], ◌∷◌, ◌++◌, ◌≡◌, refl, ap, ap₂, ◌∙◌, sym, arith, length,
  take, drop, max, map, append_assoc, drop-nil,
}
use dqrvcs.Text.{Text}
use dqrvcs.Text.Split.{concat}
use dqrvcs.Conflict.{
  ConflictLineSource, ours, theirs, ConflictHunk, choices_from, new_hunk, hunk, choose,
  compose_section,
}
use dqrvcs.Conflict.Compose.{tail, compose_lines, compose_from-compose_lines}

take-nil {ℓ} : {A : Type ℓ} (n : ℕ) → take {A = A} n [] ≡ []
take-nil zero = refl
take-nil (suc n) = refl

take_all {ℓ} : {A : Type ℓ} (n : ℕ) (xs : List A) → length xs ≤ n → take n xs ≡ xs
take_all zero [] h = refl
take_all zero (x ∷ xs) h = elim h [ ]
take_all (suc n) [] h = refl
take_all (suc n) (x ∷ xs) h = ap (λ t. x ∷ t) (take_all n xs (omega arith))

concat-take_nil : (n : ℕ) → concat (take n []) ≡ []
unfolding concat
concat-take_nil n = ap concat (take-nil n)

compose_lines_ours :
    (n : ℕ) (cs : List ConflictLineSource) (os ts : List Text)
    → compose_lines n (map (λ _. ours) cs) os ts ≡ concat (take n os)
unfolding concat
compose_lines_ours zero cs os ts = refl
compose_lines_ours (suc n) [] [] ts = compose_lines_ours n [] [] (tail ts) ∙ concat-take_nil n
compose_lines_ours (suc n) [] (o ∷ os) ts = ap (λ t. o ++ t) (compose_lines_ours n [] os (tail ts))
compose_lines_ours (suc n) (c ∷ cs) [] ts = compose_lines_ours n cs [] (tail ts) ∙ concat-take_nil n
compose_lines_ours (suc n) (c ∷ cs) (o ∷ os) ts =
    ap (λ t. o ++ t) (compose_lines_ours n cs os (tail ts))

compose_lines_theirs :
    (n : ℕ) (cs : List ConflictLineSource) (os ts : List Text)
    → n ≤ length cs
    → compose_lines n (map (λ _. theirs) cs) os ts ≡ concat (take n ts)
unfolding concat
compose_lines_theirs zero cs os ts h = refl
compose_lines_theirs (suc n) [] os ts h = absurd (omega arith)
compose_lines_theirs (suc n) (c ∷ cs) os [] h =
    compose_lines_theirs n cs (tail os) [] (omega arith) ∙ concat-take_nil n
compose_lines_theirs (suc n) (c ∷ cs) os (t ∷ ts) h =
    ap (λ s. t ++ s) (compose_lines_theirs n cs (tail os) ts (omega arith))

choices_from_lt : (n i m : ℕ) → i < m → choices_from (suc n) i m ≡ ours ∷ choices_from n (suc i) m
unfolding choices_from
choices_from_lt n i m h = ground arith

choices_from_le : (n i m : ℕ) → m ≤ i → choices_from n i m ≡ map (λ _. theirs) (choices_from n i m)
unfolding choices_from
choices_from_le zero i m h = refl
choices_from_le (suc n) i m h = ground (arith, choices_from_le n (suc i) m (omega arith))

pub length-choices_from : (n i m : ℕ) → length (choices_from n i m) ≡ n
unfolding choices_from
length-choices_from zero i m = refl
length-choices_from (suc n) i m = ap suc (length-choices_from n (suc i) m)

compose_lines_rest :
    (n i m : ℕ) (os ts : List Text)
    → m ≤ i
    → compose_lines n (choices_from n i m) os ts ≡ concat (take n ts)
compose_lines_rest n i m os ts h =
    ap (λ cs. compose_lines n cs os ts) (choices_from_le n i m h)
    ∙ compose_lines_theirs n (choices_from n i m) os ts (omega (arith, length-choices_from n i m))

compose_lines-choices_from :
    (n i m : ℕ) (os ts : List Text)
    → m ≡ i + length os
    → compose_lines n (choices_from n i m) os ts
      ≡ concat (take n os) ++ concat (drop (length os) (take n ts))
unfolding concat
compose_lines-choices_from zero i m os ts h = rw drop-nil
compose_lines-choices_from (suc n) i m [] ts h = compose_lines_rest (suc n) i m [] ts (omega arith)
compose_lines-choices_from (suc n) i m (o ∷ os) [] h =
    ap (λ cs. compose_lines (suc n) cs (o ∷ os) []) (choices_from_lt n i m (omega arith))
    ∙ ap (λ s. o ++ s)
        (compose_lines-choices_from n (suc i) m os [] (omega arith)
          ∙ ap (λ t. concat (take n os) ++ concat (drop (length os) t)) (take-nil n)
          ∙ ap (λ t. concat (take n os) ++ concat t) (drop-nil (length os)))
    ∙ sym (append_assoc o (concat (take n os)) [])
compose_lines-choices_from (suc n) i m (o ∷ os) (t ∷ ts) h =
    ap (λ cs. compose_lines (suc n) cs (o ∷ os) (t ∷ ts)) (choices_from_lt n i m (omega arith))
    ∙ ap (λ s. o ++ s) (compose_lines-choices_from n (suc i) m os ts (omega arith))
    ∙ sym (append_assoc o (concat (take n os)) (concat (drop (length os) (take n ts))))

-- Every line of the longer side has a choice.
unfoldable pub IsComplete : ConflictHunk → Type 0
IsComplete h = max (length h.ours_lines) (length h.theirs_lines) ≤ length h.choices

pub new_hunk-IsComplete : (os ts : List Text) → IsComplete (new_hunk os ts)
unfolding IsComplete new_hunk
new_hunk-IsComplete os ts =
    omega (arith, length-choices_from (max (length os) (length ts)) 0 (length os))

pub compose_section-choose_ours :
    (h : ConflictHunk) → compose_section (choose ours (hunk h)) ≡ concat h.ours_lines
unfolding compose_section
compose_section-choose_ours h =
    compose_from-compose_lines (max (length h.ours_lines) (length h.theirs_lines))
      (record h { choices = map (λ _. ours) h.choices })
    ∙ compose_lines_ours _ h.choices h.ours_lines h.theirs_lines
    ∙ ap concat (take_all _ h.ours_lines (omega arith))

pub compose_section-choose_theirs :
    (h : ConflictHunk)
    → IsComplete h
    → compose_section (choose theirs (hunk h)) ≡ concat h.theirs_lines
unfolding compose_section IsComplete
compose_section-choose_theirs h complete =
    compose_from-compose_lines (max (length h.ours_lines) (length h.theirs_lines))
      (record h { choices = map (λ _. theirs) h.choices })
    ∙ compose_lines_theirs _ h.choices h.ours_lines h.theirs_lines complete
    ∙ ap concat (take_all _ h.theirs_lines (omega arith))

pub compose_section-new_hunk :
    (os ts : List Text)
    → compose_section (hunk (new_hunk os ts)) ≡ concat os ++ concat (drop (length os) ts)
unfolding compose_section new_hunk
compose_section-new_hunk os ts =
    let n = max (length os) (length ts) in
    compose_from-compose_lines n (new_hunk os ts)
    ∙ compose_lines-choices_from n 0 (length os) os ts (omega arith)
    ∙ ap₂ (λ s t. concat s ++ concat (drop (length os) t)) (take_all n os (omega arith))
        (take_all n ts (omega arith))
