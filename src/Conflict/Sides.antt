-- ===== src/Conflict/Sides.antt =====
-- The editor's output for a whole file.
use dqrvcs.Prelude.{
  List, [], ◌∷◌, ◌++◌, ◌≡◌, refl, ap, ap₂, ◌∙◌, length, drop, All, All-append, Result, ok, err,
  Bool-cases, inl, inr,
}
use dqrvcs.Text.{Text}
use dqrvcs.Text.Split.{concat, split_inclusive}
use dqrvcs.Conflict.{
  ConflictLineSource, ours, theirs, ConflictHunk, ConflictSection, plain, hunk, new_hunk,
  push_plain, opens, separates, closes, parse_outer, parse_ours, parse_theirs,
  parse_conflict_sections, compose_section, compose_conflict_editor_output,
  apply_conflict_choice_to_all_hunks,
}
use dqrvcs.Conflict.Choices.{
  IsComplete, new_hunk-IsComplete, compose_section-choose_ours, compose_section-choose_theirs,
  compose_section-new_hunk,
}

abbrev pub side_lines : ConflictLineSource → ConflictHunk → List Text
side_lines ours h = h.ours_lines
side_lines theirs h = h.theirs_lines

-- One version of the file: the text outside the hunks, and that side of each hunk.
abbrev pub version : ConflictLineSource → List ConflictSection → Text
version s [] = []
version s (plain text ∷ rest) = text ++ version s rest
version s (hunk h ∷ rest) = concat (side_lines s h) ++ version s rest

-- What the editor shows before a choice is made: our lines, then what theirs has beyond them.
abbrev pub unresolved : List ConflictSection → Text
unresolved [] = []
unresolved (plain text ∷ rest) = text ++ unresolved rest
unresolved (hunk h ∷ rest) =
    (concat h.ours_lines ++ concat (drop (length h.ours_lines) h.theirs_lines)) ++ unresolved rest

-- A hunk as the parser makes it.
abbrev pub IsFresh : ConflictSection → Type 0
IsFresh (plain text) = Unit
IsFresh (hunk h) = h ≡ new_hunk h.ours_lines h.theirs_lines

fresh-IsComplete : (h : ConflictHunk) → IsFresh (hunk h) → IsComplete h
fresh-IsComplete h e = rw e (new_hunk-IsComplete h.ours_lines h.theirs_lines)

abbrev Fresh : Result (List ConflictSection) → Type 0
Fresh (ok ss) = All IsFresh ss
Fresh (err e) = Unit

push_plain-IsFresh :
    (text : Text) (ss : List ConflictSection) → All IsFresh ss → All IsFresh (push_plain text ss)
push_plain-IsFresh [] ss h = h
push_plain-IsFresh (c ∷ text) ss h = All-append IsFresh ss _ h (tt, tt)

mutual
  unfolding parse_outer parse_ours parse_theirs new_hunk

  parse_outer-Fresh :
      (ls : List Text) (text : Text) (ss : List ConflictSection)
      → All IsFresh ss
      → Fresh (parse_outer ls text ss)
  parse_outer-Fresh [] text ss h = push_plain-IsFresh text ss h
  parse_outer-Fresh (l ∷ ls) text ss h = elim (Bool-cases (opens l)) [
    | inl e ↦ rw (e, parse_outer) (parse_ours-Fresh ls [] _ (push_plain-IsFresh text ss h))
    | inr e ↦ rw (e, parse_outer) (parse_outer-Fresh ls (text ++ l) ss h)
  ]

  parse_ours-Fresh :
      (ls os : List Text) (ss : List ConflictSection) → All IsFresh ss → Fresh (parse_ours ls os ss)
  parse_ours-Fresh [] os ss h = tt
  parse_ours-Fresh (l ∷ ls) os ss h = elim (Bool-cases (separates l)) [
    | inl e ↦ rw (e, parse_ours) (parse_theirs-Fresh ls os [] ss h)
    | inr e ↦ rw (e, parse_ours) (parse_ours-Fresh ls (os ++ l ∷ []) ss h)
  ]

  parse_theirs-Fresh :
      (ls os ts : List Text) (ss : List ConflictSection)
      → All IsFresh ss
      → Fresh (parse_theirs ls os ts ss)
  parse_theirs-Fresh [] os ts ss h = tt
  parse_theirs-Fresh (l ∷ ls) os ts ss h = elim (Bool-cases (closes l)) [
    | inl e ↦
        rw (e, parse_theirs)
          (parse_outer-Fresh ls [] (ss ++ hunk (new_hunk os ts) ∷ [])
            (All-append IsFresh ss (hunk (new_hunk os ts) ∷ []) h (refl, tt)))
    | inr e ↦ rw (e, parse_theirs) (parse_theirs-Fresh ls os (ts ++ l ∷ []) ss h)
  ]

pub parse-IsFresh :
    (raw : Text) (ss : List ConflictSection) → parse_conflict_sections raw ≡ ok ss → All IsFresh ss
unfolding parse_conflict_sections
parse-IsFresh raw ss e = rw e at (parse_outer-Fresh (split_inclusive raw) [] [] tt)

-- "Use ours for all hunks" makes the output our version of the file, whatever was chosen before.
pub compose-apply_ours :
    (ss : List ConflictSection)
    → compose_conflict_editor_output (apply_conflict_choice_to_all_hunks ss ours) ≡ version ours ss
unfolding compose_conflict_editor_output apply_conflict_choice_to_all_hunks
compose-apply_ours [] = refl
compose-apply_ours (plain text ∷ ss) = ap (λ t. text ++ t) (compose-apply_ours ss)
compose-apply_ours (hunk h ∷ ss) =
    ap₂ (λ s t. s ++ t) (compose_section-choose_ours h) (compose-apply_ours ss)

compose-apply_theirs :
    (ss : List ConflictSection)
    → All IsFresh ss
    → compose_conflict_editor_output (apply_conflict_choice_to_all_hunks ss theirs)
      ≡ version theirs ss
unfolding compose_conflict_editor_output apply_conflict_choice_to_all_hunks
compose-apply_theirs [] f = refl
compose-apply_theirs (plain text ∷ ss) f = ap (λ t. text ++ t) (compose-apply_theirs ss f.1)
compose-apply_theirs (hunk h ∷ ss) f =
    ap₂ (λ s t. s ++ t) (compose_section-choose_theirs h (fresh-IsComplete h f.0))
      (compose-apply_theirs ss f.1)

-- "Use theirs for all hunks" on a file that was parsed makes the output their version of it.
pub parse-apply_theirs :
    (raw : Text) (ss : List ConflictSection)
    → parse_conflict_sections raw ≡ ok ss
    → compose_conflict_editor_output (apply_conflict_choice_to_all_hunks ss theirs)
      ≡ version theirs ss
parse-apply_theirs raw ss e = compose-apply_theirs ss (parse-IsFresh raw ss e)

compose_fresh :
    (ss : List ConflictSection) → All IsFresh ss → compose_conflict_editor_output ss ≡ unresolved ss
unfolding compose_conflict_editor_output
compose_fresh [] f = refl
compose_fresh (plain text ∷ ss) f = ap (λ t. text ++ t) (compose_fresh ss f.1)
compose_fresh (hunk h ∷ ss) f =
    ap₂ (λ s t. s ++ t)
      (ap (λ k. compose_section (hunk k)) f.0
        ∙ compose_section-new_hunk h.ours_lines h.theirs_lines)
      (compose_fresh ss f.1)

-- Saved with no choice made, a parsed file has our lines of each hunk followed by the lines that
-- theirs has beyond that number.
pub parse-unresolved :
    (raw : Text) (ss : List ConflictSection)
    → parse_conflict_sections raw ≡ ok ss
    → compose_conflict_editor_output ss ≡ unresolved ss
parse-unresolved raw ss e = compose_fresh ss (parse-IsFresh raw ss e)
