-- ===== src/Draw/Hunks/Picked.antt =====
-- What the line editor of `draw_merge_panel` (gui/src/main.rs) makes of the choices of a hunk, line
-- by line, by the numbers of the radio buttons that are changed.
use dqrvcs.Prelude.{
  ℕ, zero, suc, ◌+◌, ◌-◌, ◌*◌, ◌≤◌, ◌<◌, max, Bool, true, false, List, [], ◌∷◌, ◌++◌, ◌≡◌, refl, ap,
  sym, ◌∙◌, ◌⊎◌, inl, inr, arith, length, get_elem?, length-append, some, some_or, if◌then◌else◌,
  ltb,
}
use dqrvcs.Text.{Text, codes}
use dqrvcs.Conflict.{ConflictLineSource, ours, theirs}
use dqrvcs.System.{System}
use dqrvcs.Draw.{Ui, Item, monospace, choice, colored}
use dqrvcs.Draw.Labels.{show_right_3, format}
use dqrvcs.Draw.Hunks.{item, push_missing, radio, edit_line, edit_lines, shown_line}
use dqrvcs.Draw.Hunks.Put.{IsPut, set_at-IsPut, old_choice, push_missing-IsPut}

module _ {S : System} (ui : Ui S) where
  radio-runs :
      (idx : ℕ) (source v : ConflictLineSource) (text : Text) (cs : List ConflictLineSource)
      (items : List Item)
      → get_elem? cs idx ≡ some v
      → idx < length cs
      → (cs' : List ConflictLineSource) × (radio ui idx source text cs items
          ≡ some (cs', items ++ item choice text ∷ []))
        × (length cs' ≡ length cs)
        × IsPut idx (if ui.changed (length items) then source else v) cs cs'
  unfolding radio
  radio-runs idx source v text cs items e h = go (ui.changed (length items)) refl
    where
      go :
          (b : Bool)
          → ui.changed (length items) ≡ b
          → (cs' : List ConflictLineSource) × (radio ui idx source text cs items
              ≡ some (cs', items ++ item choice text ∷ []))
            × (length cs' ≡ length cs)
            × IsPut idx (if b then source else v) cs cs'
      go true b =
          let (cs', set, same_length, put) = set_at-IsPut idx source cs h in
          (cs', rw (radio, e, b, set) refl, same_length, put)
      go false b = (cs, rw (radio, e, b) refl, refl, record { at = e; others = λ k ne. refl })

  -- The choice of a line that starts at the item `n`: its buttons are the next two items, and the
  -- second is asked last.
  abbrev pub line_pick : ℕ → ConflictLineSource → ConflictLineSource
  line_pick n old = if ui.changed (n + 2) then theirs else if ui.changed (n + 1) then ours else old

  IsPut-trans :
      {A : Type 0} (i : ℕ) (a b : A) (xs ys zs : List A)
      → IsPut i a xs ys
      → IsPut i b ys zs
      → IsPut i b xs zs
  IsPut-trans i a b xs ys zs p q = record {
    at = q.at;
    others = λ k ne. q.others k ne ∙ p.others k ne;
  }

  -- The two coloured labels at the end of a line.
  abbrev pub sides_shown : ℕ → List Text → List Text → List Item
  sides_shown idx os ts =
      item (colored 140 180 240) (format (codes "ours: " ∷ shown_line os idx ∷ []))
      ∷ item (colored 240 170 130) (format (codes "theirs: " ∷ shown_line ts idx ∷ []))
      ∷ []

  edit_line-runs :
      (idx : ℕ) (os ts : List Text) (cs : List ConflictLineSource) (items : List Item)
      → idx ≤ length cs
      → (cs' : List ConflictLineSource) × (items' : List Item) × (edit_line ui idx os ts cs items
          ≡ some (cs', items'))
        × (length items' ≡ length items + 5)
        × (length cs' ≡ max (length cs) (suc idx))
        × IsPut idx (line_pick (length items) (old_choice idx (length os) cs)) cs cs'
  unfolding edit_line
  edit_line-runs idx os ts cs items h =
      let n = length items in
      let cs0 = push_missing idx (length os) cs in
      let items1 : List Item = items ++ item monospace (show_right_3 (idx + 1)) ∷ [] in
      let items2 : List Item = items1 ++ item choice (codes "ours") ∷ [] in
      let n1 : length items1 ≡ n + 1 = length-append items _ in
      let n2 : length items2 ≡ n + 2 =
        omega (arith, n1, length-append items1 (item choice (codes "ours") ∷ [])) in
      let (length0, put0) = push_missing-IsPut idx (length os) cs h in
      let (cs1, run1, length1, put1) =
        radio-runs idx ours _ (codes "ours") cs0 items1 put0.at (omega arith) in
      let (cs2, run2, length2, put2) =
        radio-runs idx theirs _ (codes "theirs") cs1 items2 put1.at (omega arith) in
      let put : IsPut idx (line_pick n (old_choice idx (length os) cs)) cs cs2 =
        rw (n1, n2) at
          (IsPut-trans idx _ _ cs cs1 cs2 (IsPut-trans idx _ _ cs cs0 cs1 put0 put1) put2) in
      let items3 : List Item = items2 ++ item choice (codes "theirs") ∷ [] in
      let n3 : length items3 ≡ n + 3 =
        omega (arith, n2, length-append items2 (item choice (codes "theirs") ∷ [])) in
      (
        cs2,
        items3 ++ sides_shown idx os ts,
        rw (edit_line, run1, run2) refl,
        omega (arith, n3, length-append items3 (sides_shown idx os ts)),
        omega arith,
        put,
      )

  -- The loop sets the choice of each of its lines by the line's two buttons, and no other choice.
  pub record IsPicked (rounds idx ours_len : ℕ) (cs cs' : List ConflictLineSource) (n : ℕ)
      : Type 0 where
    pub inside :
        (k : ℕ)
        → idx ≤ k
        → k < idx + rounds
        → get_elem? cs' k ≡ some (line_pick (n + 5 * (k - idx)) (old_choice k ours_len cs))
    pub before : (k : ℕ) → k < idx → get_elem? cs' k ≡ get_elem? cs k
    pub after : (k : ℕ) → idx + rounds ≤ k → get_elem? cs' k ≡ get_elem? cs k

  picked_step :
      (rounds idx ours_len n n' : ℕ) (cs cs' cs'' : List ConflictLineSource)
      → n' ≡ n + 5
      → IsPut idx (line_pick n (old_choice idx ours_len cs)) cs cs'
      → IsPicked rounds (suc idx) ours_len cs' cs'' n'
      → (k : ℕ) → idx ≤ k
      → k < idx + suc rounds
      → (k ≡ idx) ⊎ (idx < k)
      → get_elem? cs'' k ≡ some (line_pick (n + 5 * (k - idx)) (old_choice k ours_len cs))
  picked_step rounds idx ours_len n n' cs cs' cs'' e put rest k lo hi (inl same) =
      rest.before k (omega arith)
      ∙ ap (λ j. get_elem? cs' j) same
      ∙ put.at
      ∙ ap (λ m. some (line_pick m (old_choice idx ours_len cs))) (omega arith)
      ∙ ap (λ j. some (line_pick (n + 5 * (k - idx)) (old_choice j ours_len cs))) (sym same)
  picked_step rounds idx ours_len n n' cs cs' cs'' e put rest k lo hi (inr later) =
      rest.inside k (omega arith) (omega arith)
      ∙ ap (λ m. some (line_pick m (old_choice k ours_len cs'))) (omega arith)
      ∙ ap
          (λ o.
            some
              (line_pick (n + 5 * (k - idx)) (some_or o (if ltb k ours_len then ours else theirs))))
          (put.others k (λ same. omega arith))

  pub edit_lines-runs :
      (rounds idx : ℕ) (os ts : List Text) (cs : List ConflictLineSource) (items : List Item)
      → idx ≤ length cs
      → (cs' : List ConflictLineSource) × (items' : List Item) × (edit_lines ui rounds idx os ts cs
            items
          ≡ some (cs', items'))
        × (length items' ≡ length items + 5 * rounds)
        × (length cs' ≡ max (length cs) (idx + rounds))
        × IsPicked rounds idx (length os) cs cs' (length items)
  unfolding edit_lines
  edit_lines-runs zero idx os ts cs items h = (
    cs,
    items,
    refl,
    omega arith,
    omega arith,
    record {
      inside = λ k lo hi. absurd (omega arith);
      before = λ k lo. refl;
      after = λ k hi. refl;
    },
  )
  edit_lines-runs (suc rounds) idx os ts cs items h =
      let (cs', items', run, n', len, put) = edit_line-runs idx os ts cs items h in
      let (cs'', items'', run', n'', len', rest) =
        edit_lines-runs rounds (suc idx) os ts cs' items' (omega arith) in
      (
        cs'',
        items'',
        rw (edit_lines, run) run',
        omega arith,
        omega arith,
        record {
          inside = λ k lo hi.
              picked_step rounds idx (length os) (length items) (length items') cs cs' cs'' n' put
                rest k lo hi (ground arith);
          before = λ k lo. rest.before k (omega arith) ∙ put.others k (λ e. omega arith);
          after = λ k hi. rest.after k (omega arith) ∙ put.others k (λ e. omega arith);
        },
      )
