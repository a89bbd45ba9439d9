-- ===== src/Draw/Hunks/Sections.antt =====
-- What the line editor of `draw_merge_panel` (gui/src/main.rs) makes of a hunk and of a whole file.
use dqrvcs.Prelude.{
  ℕ, zero, suc, ◌+◌, ◌*◌, ◌<◌, max, List, [], ◌∷◌, ◌++◌, ◌≡◌, refl, ap, ap₂, ◌∙◌, arith, length,
  get_elem?, length-append, some, some_or,
}
use dqrvcs.Text.{Text, codes}
use dqrvcs.Text.Bytes.{show_nat}
use dqrvcs.Conflict.{
  ConflictLineSource, ours, ConflictHunk, ConflictSection, plain, hunk, chosen, compose_from,
  compose_section,
}
use dqrvcs.Conflict.SameLines.{max_lines, IsRechosenSection, IsRechosen}
use dqrvcs.System.{System}
use dqrvcs.Draw.{Ui, Item, strong}
use dqrvcs.Draw.Labels.{format}
use dqrvcs.Draw.Hunks.{item, edit_section, edit_sections}
use dqrvcs.Draw.Hunks.Put.{old_choice}
use dqrvcs.Draw.Hunks.Picked.{line_pick, IsPicked, edit_lines-runs}

-- The second hunk has the lines of the first, and a choice for each line.
pub record IsEditedHunk (h k : ConflictHunk) : Type 0 where
  pub same_ours : k.ours_lines ≡ h.ours_lines
  pub same_theirs : k.theirs_lines ≡ h.theirs_lines
  pub choice_count : length k.choices ≡ max (length h.choices) (max_lines h)

abbrev pub IsEditedSection : ConflictSection → ConflictSection → Type 0
IsEditedSection (plain s) (plain t) = t ≡ s
IsEditedSection (hunk h) (hunk k) = IsEditedHunk h k
IsEditedSection (plain s) (hunk k) = ⊥
IsEditedSection (hunk h) (plain t) = ⊥

-- The second list has the texts and lines of the first, and a choice for each line.
abbrev pub IsEdited : List ConflictSection → List ConflictSection → Type 0
IsEdited [] [] = Unit
IsEdited (s ∷ ss) (t ∷ ts) = IsEditedSection s t × IsEdited ss ts
IsEdited [] (t ∷ ts) = ⊥
IsEdited (s ∷ ss) [] = ⊥

edited-IsRechosenSection :
    (s t u : ConflictSection) → IsRechosenSection s t → IsEditedSection t u → IsRechosenSection s u
edited-IsRechosenSection (plain s) (plain t) (plain u) r e = e ∙ r
edited-IsRechosenSection (hunk h) (hunk k) (hunk l) r e = record {
  same_ours = e.same_ours ∙ r.same_ours;
  same_theirs = e.same_theirs ∙ r.same_theirs;
  choice_count =
      let os = ap length r.same_ours in
      let ts = ap length r.same_theirs in omega (arith, e.choice_count, r.choice_count, os, ts);
}
edited-IsRechosenSection (plain s) (plain t) (hunk l) r e = absurd e
edited-IsRechosenSection (plain s) (hunk k) u r e = absurd r
edited-IsRechosenSection (hunk h) (plain t) u r e = absurd r
edited-IsRechosenSection (hunk h) (hunk k) (plain u) r e = absurd e

pub edited-IsRechosen :
    (ss ts us : List ConflictSection) → IsRechosen ss ts → IsEdited ts us → IsRechosen ss us
edited-IsRechosen [] [] [] r e = tt
edited-IsRechosen (s ∷ ss) (t ∷ ts) (u ∷ us) r e =
    (edited-IsRechosenSection s t u r.0 e.0, edited-IsRechosen ss ts us r.1 e.1)
edited-IsRechosen [] [] (u ∷ us) r e = absurd e
edited-IsRechosen [] (t ∷ ts) us r e = absurd r
edited-IsRechosen (s ∷ ss) [] us r e = absurd r
edited-IsRechosen (s ∷ ss) (t ∷ ts) [] r e = absurd e

module _ {S : System} (ui : Ui S) where
  -- The text of the lines that the buttons show as chosen, `rounds` of them from `idx` on.
  abbrev pub picked_text : ℕ → ℕ → ℕ → ConflictHunk → Text
  picked_text zero idx n h = []
  picked_text (suc rounds) idx n h =
      chosen (line_pick ui (n + 5 * idx) (old_choice idx (length h.ours_lines) h.choices))
        h.ours_lines h.theirs_lines idx
      ++ picked_text rounds (suc idx) n h

  abbrev pub hunk_heading : ℕ → Item
  hunk_heading idx = item strong (format (codes "Conflict hunk " ∷ show_nat (idx + 1) ∷ []))

  compose_from-picked :
      (rounds idx n : ℕ) (h : ConflictHunk) (cs : List ConflictLineSource)
      → ((k : ℕ)
          → k < idx + rounds
          → get_elem? cs k
            ≡ some (line_pick ui (n + 5 * k) (old_choice k (length h.ours_lines) h.choices)))
      → compose_from rounds idx (record h { choices = cs }) ≡ picked_text rounds idx n h
  unfolding compose_from
  compose_from-picked zero idx n h cs picks = refl
  compose_from-picked (suc rounds) idx n h cs picks =
      ap₂ (λ s t. s ++ t)
        (ap (λ o. chosen (some_or o ours) h.ours_lines h.theirs_lines idx)
          (picks idx (omega arith)))
        (compose_from-picked rounds (suc idx) n h cs (λ k hi. picks k (omega arith)))

  edit_hunk-runs :
      (idx : ℕ) (h : ConflictHunk) (items : List Item)
      → (cs : List ConflictLineSource) × (items' : List Item) × (edit_section ui idx (hunk h) items
          ≡ some (hunk (record h { choices = cs }), items'))
        × (length items' ≡ length items + (1 + 5 * max_lines h))
        × (length cs ≡ max (length h.choices) (max_lines h))
        × IsPicked ui (max_lines h) 0 (length h.ours_lines) h.choices cs (length items + 1)
  unfolding edit_section
  edit_hunk-runs idx h items =
      let items1 : List Item = items ++ hunk_heading idx ∷ [] in
      let n1 : length items1 ≡ length items + 1 = length-append items (hunk_heading idx ∷ []) in
      let (cs, items', run, n', len, picked) =
        edit_lines-runs ui (max_lines h) 0 h.ours_lines h.theirs_lines h.choices items1
          (omega arith) in
      (cs, items', rw (edit_section, run) refl, omega arith, omega arith, rw n1 at picked)

  -- Drawing a hunk never runs out of its choices, and what the hunk then composes to are the lines
  -- that the radio buttons show: of each line, theirs where its second button is changed, else ours
  -- where its first one is, and else the choice from before, with ours for a line that had none and
  -- that ours has.
  pub edit_section-picked_text :
      (idx : ℕ) (h : ConflictHunk) (items : List Item)
      → (h' : ConflictHunk) × (items' : List Item) × (edit_section ui idx (hunk h) items
          ≡ some (hunk h', items'))
        × (h'.ours_lines ≡ h.ours_lines)
        × (h'.theirs_lines ≡ h.theirs_lines)
        × (compose_section (hunk h') ≡ picked_text (max_lines h) 0 (length items + 1) h)
  unfolding compose_section
  edit_section-picked_text idx h items =
      let (cs, items', run, n', len, picked) = edit_hunk-runs idx h items in
      (
        record h { choices = cs },
        items',
        run,
        refl,
        refl,
        compose_from-picked (max_lines h) 0 (length items + 1) h cs (λ k hi.
            picked.inside k (omega arith) (omega arith)
            ∙ ap
                (λ m. some (
                  line_pick ui (length items + 1 + 5 * m)
                    (old_choice k (length h.ours_lines) h.choices)))
                (omega arith)),
      )

  edit_section-runs :
      (idx : ℕ) (s : ConflictSection) (items : List Item)
      → (s' : ConflictSection) × (items' : List Item) × (edit_section ui idx s items
          ≡ some (s', items'))
        × IsEditedSection s s'
  unfolding edit_section
  edit_section-runs idx (plain text) items = (plain text, _, refl, refl)
  edit_section-runs idx (hunk h) items =
      let (cs, items', run, n', len, picked) = edit_hunk-runs idx h items in
      (
        hunk (record h { choices = cs }),
        items',
        run,
        record { same_ours = refl; same_theirs = refl; choice_count = len },
      )

  -- Drawing the sections never runs out of the choices of a hunk, keeps each text and line, and
  -- leaves a choice for each line.
  pub edit_sections-IsEdited :
      (idx : ℕ) (ss : List ConflictSection) (items : List Item)
      → (ss' : List ConflictSection) × (items' : List Item) × (edit_sections ui idx ss items
          ≡ some (ss', items'))
        × IsEdited ss ss'
  unfolding edit_sections
  edit_sections-IsEdited idx [] items = ([], items, refl, tt)
  edit_sections-IsEdited idx (s ∷ ss) items =
      let (s', items', run, edited) = edit_section-runs idx s items in
      let (ss', items'', runs, all_edited) = edit_sections-IsEdited (suc idx) ss items' in
      (s' ∷ ss', items'', rw (edit_sections, run, runs) refl, (edited, all_edited))
