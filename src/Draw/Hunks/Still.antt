-- ===== src/Draw/Hunks/Still.antt =====
-- The line editor of `draw_merge_panel` (gui/src/main.rs) where no button is changed and each line
-- has its choice.
use dqrvcs.Prelude.{
  ℕ, zero, suc, ◌+◌, ◌≤◌, ◌<◌, false, List, [], ◌∷◌, ◌++◌, ◌≡◌, refl, ap, ◌∙◌, arith, All, length,
  get_elem?, leb, some,
}
use dqrvcs.Text.{Text, codes}
use dqrvcs.Conflict.{ConflictLineSource, ours, theirs, ConflictSection, plain, hunk}
use dqrvcs.Conflict.Choices.{IsComplete}
use dqrvcs.Conflict.SameLines.{max_lines}
use dqrvcs.System.{System}
use dqrvcs.Draw.{Item, monospace, choice}
use dqrvcs.Draw.Labels.{show_right_3}
use dqrvcs.Draw.Idle.{idle, HasChoices}
use dqrvcs.Draw.Hunks.{
  item, push_missing, radio, edit_line, edit_lines, edit_section, edit_sections,
}
use dqrvcs.Draw.Hunks.Put.{get_elem?-lt}
use dqrvcs.Draw.Hunks.Picked.{sides_shown}
use dqrvcs.Draw.Hunks.Sections.{hunk_heading}

module _ (S : System) where
  radio-still :
      (idx : ℕ) (source c : ConflictLineSource) (text : Text) (cs : List ConflictLineSource)
      (items : List Item)
      → get_elem? cs idx ≡ some c
      → radio (idle {S = S}) idx source text cs items ≡ some (cs, items ++ item choice text ∷ [])
  unfolding radio
  radio-still idx source c text cs items e = rw (radio, e) refl

  push_missing-still :
      (idx ours_len : ℕ) (cs : List ConflictLineSource)
      → idx < length cs
      → push_missing idx ours_len cs ≡ cs
  unfolding push_missing
  push_missing-still idx ours_len cs h =
      let present : leb (length cs) idx ≡ false = ground arith in rw present refl

  edit_line-still :
      (idx : ℕ) (os ts : List Text) (cs : List ConflictLineSource) (items : List Item)
      → idx < length cs
      → (items' : List Item) × (edit_line (idle {S = S}) idx os ts cs items ≡ some (cs, items'))
  unfolding edit_line
  edit_line-still idx os ts cs items h =
      let (c, e) = get_elem?-lt idx cs h in
      let cs0 = push_missing idx (length os) cs in
      let kept : cs0 ≡ cs = push_missing-still idx (length os) cs h in
      let e0 : get_elem? cs0 idx ≡ some c = ap (λ xs. get_elem? xs idx) kept ∙ e in
      let items1 : List Item = items ++ item monospace (show_right_3 (idx + 1)) ∷ [] in
      let items2 : List Item = items1 ++ item choice (codes "ours") ∷ [] in
      let items3 : List Item = items2 ++ item choice (codes "theirs") ∷ [] in
      let items4 : List Item = items3 ++ sides_shown (idle {S = S}) idx os ts in
      let run1 = radio-still idx ours c (codes "ours") cs0 items1 e0 in
      let run2 = radio-still idx theirs c (codes "theirs") cs0 items2 e0 in
      (items4, rw (edit_line, run1, run2) (ap (λ xs. some (xs, items4)) kept))

  edit_lines-still :
      (rounds idx : ℕ) (os ts : List Text) (cs : List ConflictLineSource) (items : List Item)
      → idx + rounds ≤ length cs
      → (items' : List Item) × (edit_lines (idle {S = S}) rounds idx os ts cs items
          ≡ some (cs, items'))
  unfolding edit_lines
  edit_lines-still zero idx os ts cs items h = (items, refl)
  edit_lines-still (suc rounds) idx os ts cs items h =
      let (items1, e) = edit_line-still idx os ts cs items (omega arith) in
      let (items2, f) = edit_lines-still rounds (suc idx) os ts cs items1 (omega arith) in
      (items2, rw (edit_lines, e) f)

  edit_section-still :
      (idx : ℕ) (s : ConflictSection) (items : List Item)
      → HasChoices s
      → (items' : List Item) × (edit_section (idle {S = S}) idx s items ≡ some (s, items'))
  unfolding edit_section IsComplete
  edit_section-still idx (plain text) items h = (_, refl)
  edit_section-still idx (hunk k) items h =
      let (items1, e) =
        edit_lines-still (max_lines k) 0 k.ours_lines k.theirs_lines k.choices
          (items ++ hunk_heading (idle {S = S}) idx ∷ []) (omega arith) in
      (items1, rw (edit_section, e) refl)

  pub edit_sections-still :
      (idx : ℕ) (ss : List ConflictSection) (items : List Item)
      → All HasChoices ss
      → (items' : List Item) × (edit_sections (idle {S = S}) idx ss items ≡ some (ss, items'))
  unfolding edit_sections
  edit_sections-still idx [] items h = (items, refl)
  edit_sections-still idx (s ∷ ss) items h =
      let (items1, e) = edit_section-still idx s items h.0 in
      let (items2, f) = edit_sections-still (suc idx) ss items1 h.1 in
      (items2, rw (edit_sections, e, f) refl)
