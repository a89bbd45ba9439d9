-- ===== src/Conflict/SameLines.antt =====
-- The sections of a file with other choices (gui/src/main.rs): what the conflict editor may make of
-- the sections that `parse_conflict_sections` returns.
use dqrvcs.Prelude.{
  ℕ, suc, max, List, [], ◌∷◌, ◌≡◌, refl, ap, ap₂, ◌∙◌, ◌++◌, All, length, map, ok, arith,
}
use dqrvcs.Text.{Text}
use dqrvcs.Text.Split.{concat}
use dqrvcs.Conflict.{
  ConflictLineSource, ours, theirs, compose_section, compose_conflict_editor_output, ConflictHunk,
  ConflictSection, plain, hunk, new_hunk, parse_conflict_sections, choose,
  apply_conflict_choice_to_all_hunks,
}
use dqrvcs.Conflict.Choices.{
  length-choices_from, IsComplete, compose_section-choose_ours, compose_section-choose_theirs,
}
use dqrvcs.Conflict.Sides.{IsFresh, parse-IsFresh, version, side_lines}

abbrev pub max_lines : ConflictHunk → ℕ
max_lines h = max (length h.ours_lines) (length h.theirs_lines)

-- The second hunk has the lines of the first, and one choice for each line of the longer side.
pub record IsRechosenHunk (h k : ConflictHunk) : Type 0 where
  pub same_ours : k.ours_lines ≡ h.ours_lines
  pub same_theirs : k.theirs_lines ≡ h.theirs_lines
  pub choice_count : length k.choices ≡ max_lines h

abbrev pub IsRechosenSection : ConflictSection → ConflictSection → Type 0
IsRechosenSection (plain s) (plain t) = t ≡ s
IsRechosenSection (hunk h) (hunk k) = IsRechosenHunk h k
IsRechosenSection (plain s) (hunk k) = ⊥
IsRechosenSection (hunk h) (plain t) = ⊥

-- The second list has the texts and lines of the first, and one choice for each line.
abbrev pub IsRechosen : List ConflictSection → List ConflictSection → Type 0
IsRechosen [] [] = Unit
IsRechosen (s ∷ ss) (t ∷ ts) = IsRechosenSection s t × IsRechosen ss ts
IsRechosen [] (t ∷ ts) = ⊥
IsRechosen (s ∷ ss) [] = ⊥

fresh-IsRechosen : (ss : List ConflictSection) → All IsFresh ss → IsRechosen ss ss
unfolding new_hunk
fresh-IsRechosen [] f = tt
fresh-IsRechosen (plain text ∷ ss) f = (refl, fresh-IsRechosen ss f.1)
fresh-IsRechosen (hunk h ∷ ss) f = (
  record {
    same_ours = refl;
    same_theirs = refl;
    choice_count =
        ap (λ k. length (ConflictHunk.choices k)) f.0
        ∙ length-choices_from (max_lines h) 0 (length h.ours_lines);
  },
  fresh-IsRechosen ss f.1,
)

pub parse-IsRechosen :
    (raw : Text) (ss : List ConflictSection)
    → parse_conflict_sections raw ≡ ok ss
    → IsRechosen ss ss
parse-IsRechosen raw ss e = fresh-IsRechosen ss (parse-IsFresh raw ss e)

length-map : {A B : Type 0} (f : A → B) (xs : List A) → length (map f xs) ≡ length xs
length-map f [] = refl
length-map f (x ∷ xs) = ap suc (length-map f xs)

choose-IsRechosen :
    (source : ConflictLineSource) (s t : ConflictSection)
    → IsRechosenSection s t
    → IsRechosenSection s (choose source t)
choose-IsRechosen source (plain s) (plain t) h = h
choose-IsRechosen source (hunk h) (hunk k) r = record {
  same_ours = r.same_ours;
  same_theirs = r.same_theirs;
  choice_count = length-map _ k.choices ∙ r.choice_count;
}
choose-IsRechosen source (plain s) (hunk k) h = absurd h
choose-IsRechosen source (hunk h) (plain t) r = absurd r

pub apply-IsRechosen :
    (source : ConflictLineSource) (ss ts : List ConflictSection)
    → IsRechosen ss ts
    → IsRechosen ss (apply_conflict_choice_to_all_hunks ts source)
unfolding apply_conflict_choice_to_all_hunks
apply-IsRechosen source [] [] h = tt
apply-IsRechosen source (s ∷ ss) (t ∷ ts) h =
    (choose-IsRechosen source s t h.0, apply-IsRechosen source ss ts h.1)
apply-IsRechosen source [] (t ∷ ts) h = absurd h
apply-IsRechosen source (s ∷ ss) [] h = absurd h

pub rechosen-IsComplete : (h k : ConflictHunk) → IsRechosenHunk h k → IsComplete k
unfolding IsComplete
rechosen-IsComplete h k r =
    let os = ap length r.same_ours in
    let ts = ap length r.same_theirs in omega (arith, r.choice_count, os, ts)

compose_section-rechosen :
    (source : ConflictLineSource) (h k : ConflictHunk)
    → IsRechosenHunk h k
    → compose_section (choose source (hunk k)) ≡ concat (side_lines source h)
compose_section-rechosen ours h k r = compose_section-choose_ours k ∙ ap concat r.same_ours
compose_section-rechosen theirs h k r =
    compose_section-choose_theirs k (rechosen-IsComplete h k r) ∙ ap concat r.same_theirs

-- However the choices stand, one side chosen for all hunks composes to that side's version.
pub compose-apply_rechosen :
    (source : ConflictLineSource) (ss ts : List ConflictSection)
    → IsRechosen ss ts
    → compose_conflict_editor_output (apply_conflict_choice_to_all_hunks ts source)
      ≡ version source ss
unfolding compose_conflict_editor_output apply_conflict_choice_to_all_hunks compose_section
compose-apply_rechosen source [] [] r = refl
compose-apply_rechosen source (plain s ∷ ss) (plain t ∷ ts) r =
    ap₂ (λ a b. a ++ b) r.0 (compose-apply_rechosen source ss ts r.1)
compose-apply_rechosen source (hunk h ∷ ss) (hunk k ∷ ts) r =
    ap₂ (λ a b. a ++ b) (compose_section-rechosen source h k r.0)
      (compose-apply_rechosen source ss ts r.1)
compose-apply_rechosen source (plain s ∷ ss) (hunk k ∷ ts) r = absurd r.0
compose-apply_rechosen source (hunk h ∷ ss) (plain t ∷ ts) r = absurd r.0
compose-apply_rechosen source [] (t ∷ ts) r = absurd r
compose-apply_rechosen source (s ∷ ss) [] r = absurd r
