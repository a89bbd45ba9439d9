-- ===== src/Draw/Hunks.antt =====
-- The line-by-line conflict editor of `draw_merge_panel` (gui/src/main.rs): the loops over the
-- sections and over the lines of a hunk. `none` is the panic of an index that is out of range.
pub mod Put
pub mod Picked
pub mod Sections
pub mod Still
use dqrvcs.Prelude.{
  ℕ, zero, suc, ◌+◌, max, List, [], ◌∷◌, ◌++◌, if◌then◌else◌, Option, none, some, length, get_elem?,
  ltb, leb,
}
use dqrvcs.Text.{Text, codes}
use dqrvcs.Text.Bytes.{show_nat}
use dqrvcs.Text.Split.{lines}
use dqrvcs.Conflict.{ConflictLineSource, ours, theirs, ConflictSection, plain, hunk}
use dqrvcs.System.{System}
use dqrvcs.Draw.{Ui, Item, Style, label, strong, monospace, choice, colored, Panel}
use dqrvcs.Draw.Labels.{show_right_3, trim_newlines, format}

abbrev item : Style → Text → Item
item style text = record { style = style; text = text }

-- `list[i] = a`
unfoldable pub set_at {ℓ} : {A : Type ℓ} → ℕ → A → List A → Option (List A)
set_at i a [] = none
set_at zero a (b ∷ bs) = some (a ∷ bs)
set_at (suc i) a (b ∷ bs) = elim (set_at i a bs) [ none ↦ none | some cs ↦ some (b ∷ cs) ]

-- `if choices.len() <= line_idx { choices.push(..) }`
unfoldable pub push_missing : ℕ → ℕ → List ConflictLineSource → List ConflictLineSource
push_missing idx ours_len choices =
    if leb (length choices) idx
    then choices ++ (if ltb idx ours_len then ours else theirs) ∷ []
    else choices

-- `get(line_idx).map(|line| line.trim_end_matches('\n')).unwrap_or("")`
unfoldable pub shown_line : List Text → ℕ → Text
shown_line ls idx = elim (get_elem? ls idx) [ none ↦ [] | some line ↦ trim_newlines line ]

module _ {S : System} (ui : Ui S) where
  -- `radio_value(&mut choices[line_idx], source, text)`
  unfoldable pub radio :
      ℕ
      → ConflictLineSource
      → Text
      → List ConflictLineSource
      → List Item
      → Option (List ConflictLineSource × List Item)
  unfolding set_at
  radio idx source text choices items = elim (get_elem? choices idx) [
    | none ↦ none
    | some _ ↦
        if ui.changed (length items)
        then elim (set_at idx source choices) [
          | none ↦ none
          | some choices' ↦ some (choices', items ++ item choice text ∷ [])
        ]
        else some (choices, items ++ item choice text ∷ [])
  ]

  -- The body of the loop over the lines of a hunk.
  unfoldable pub edit_line :
      ℕ
      → List Text
      → List Text
      → List ConflictLineSource
      → List Item
      → Option (List ConflictLineSource × List Item)
  unfolding radio push_missing shown_line
  edit_line idx os ts choices items =
      elim (radio idx ours (codes "ours") (push_missing idx (length os) choices)
        (items ++ item monospace (show_right_3 (idx + 1)) ∷ [])) [
          | none ↦ none
          | some (choices1, items1) ↦ elim (radio idx theirs (codes "theirs") choices1 items1) [
            | none ↦ none
            | some (choices2, items2) ↦ some (
              choices2,
              items2
                  ++ item (colored 140 180 240) (format (codes "ours: " ∷ shown_line os idx ∷ []))
                    ∷ item (colored 240 170 130)
                        (format (codes "theirs: " ∷ shown_line ts idx ∷ []))
                    ∷ [],
            )
          ]
        ]

  -- The loop, `rounds` of it from `idx` on.
  unfoldable pub edit_lines :
      ℕ
      → ℕ
      → List Text
      → List Text
      → List ConflictLineSource
      → List Item
      → Option (List ConflictLineSource × List Item)
  unfolding edit_line
  edit_lines zero idx os ts choices items = some (choices, items)
  edit_lines (suc rounds) idx os ts choices items = elim (edit_line idx os ts choices items) [
    | none ↦ none
    | some (choices', items') ↦ edit_lines rounds (suc idx) os ts choices' items'
  ]

  unfoldable pub edit_section :
      ℕ → ConflictSection → List Item → Option (ConflictSection × List Item)
  unfolding edit_lines
  edit_section idx (plain text) items = some (
    plain text,
    items
        ++ item label (
            format (
              codes "Context block "
              ∷ show_nat (idx + 1)
              ∷ codes " ("
              ∷ show_nat (length (lines text))
              ∷ codes " lines)"
              ∷ []))
          ∷ [],
  )
  edit_section idx (hunk h) items =
      elim (edit_lines (max (length h.ours_lines) (length h.theirs_lines)) 0 h.ours_lines
        h.theirs_lines h.choices
        (items ++ item strong (format (codes "Conflict hunk " ∷ show_nat (idx + 1) ∷ [])) ∷ [])) [
          | none ↦ none
          | some (choices, items') ↦ some (hunk (record h { choices = choices }), items')
        ]

  -- The loop over the sections from `idx` on.
  unfoldable pub edit_sections :
      ℕ → List ConflictSection → List Item → Option (List ConflictSection × List Item)
  unfolding edit_section
  edit_sections idx [] items = some ([], items)
  edit_sections idx (s ∷ ss) items = elim (edit_section idx s items) [
    | none ↦ none
    | some (s', items') ↦ elim (edit_sections (suc idx) ss items') [
      | none ↦ none
      | some (ss', items'') ↦ some (s' ∷ ss', items'')
    ]
  ]

  unfoldable pub draw_sections : Panel S
  unfolding edit_sections
  draw_sections fr w =
      let app = fr.app in
      let editor = app.merge_form.editor in
      elim (edit_sections 0 editor.sections fr.items) [
        | none ↦ none
        | some (sections, items) ↦ some (
          record {
            app = record app {
              merge_form = record (app.merge_form) {
                editor = record editor { sections = sections };
              };
            };
            items = items;
          },
          w,
        )
      ]
