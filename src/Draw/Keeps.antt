-- ===== src/Draw/Keeps.antt =====
-- What drawing does to the conflict editor: a property that the methods keep is kept by every
-- panel, one rule for each way to build one.
pub mod Panels
pub mod Frames
use dqrvcs.Prelude.{
  Bool, true, false, ◌&&◌, List, [], ◌∷◌, inl, inr, if◌then◌else◌, map, Option, none, some,
  Option-cases,
}
use dqrvcs.Text.{Text}
use dqrvcs.Conflict.{ConflictEditorState}
use dqrvcs.System.{System}
use dqrvcs.App.{VcsGuiApp, Method}
use dqrvcs.App.Keeps.{Keeps}
use dqrvcs.Draw.{
  Ui, Frame, Panel, Setter, Style, add, run_all, observe, when, either, paint, act, assign,
  button_enabled, on_click, choose_value, combo_box, text_edit, checkbox,
}

module _ {S : System} where
  -- What holds of the editor after a panel; `C` holds if it panics.
  abbrev pub LeavesFrame :
      Type 0 → (ConflictEditorState → Type 0) → Option (Frame S × S.World) → Type 0
  LeavesFrame C P none = C
  LeavesFrame C P (some (fr, w)) = P fr.app.merge_form.editor

  -- The panel keeps `P` of the editor, and panics only where `C` holds.
  pub record KeepsFrame (C : Type 0) (P : ConflictEditorState → Type 0) (p : Panel S) : Type 0 where
    pub at : (fr : Frame S) (w : S.World) → P fr.app.merge_form.editor → LeavesFrame C P (p fr w)

  -- Every panel of a list does.
  pub AllKeep : Type 0 → (ConflictEditorState → Type 0) → List (Panel S) → Type 0
  AllKeep C P [] = Unit
  AllKeep C P (p ∷ ps) = KeepsFrame C P p × AllKeep C P ps

module _ {S : System} (C : Type 0) (P : ConflictEditorState → Type 0) where
  run_all-keeps :
      (ps : List (Panel S)) (fr : Frame S) (w : S.World)
      → AllKeep C P ps
      → P fr.app.merge_form.editor
      → LeavesFrame C P (run_all ps fr w)
  unfolding run_all AllKeep
  run_all-keeps [] fr w kept h = h
  run_all-keeps (p ∷ ps) fr w (kept, rest) h =
      let after = kept.at fr w h in
      elim (Option-cases (p fr w)) [
        | inl e ↦ rw (run_all, e) (rw e at after)
        | inr ((fr', w'), e) ↦ rw (run_all, e) (run_all-keeps ps fr' w' rest (rw e at after))
      ]

pub AllKeep-nil :
    (S : System) (C : Type 0) (P : ConflictEditorState → Type 0) → AllKeep {S = S} C P []
unfolding AllKeep
AllKeep-nil S C P = tt

module _ {S : System} {C : Type 0} {P : ConflictEditorState → Type 0} where
  pub KeepsFrame-run_all : (ps : List (Panel S)) → AllKeep C P ps → KeepsFrame C P (run_all ps)
  KeepsFrame-run_all ps kept = record { at = λ fr w h. run_all-keeps C P ps fr w kept h }

  pub AllKeep-cons :
      (p : Panel S) (ps : List (Panel S)) → KeepsFrame C P p → AllKeep C P ps → AllKeep C P (p ∷ ps)
  unfolding AllKeep
  AllKeep-cons p ps kept rest = (kept, rest)

  pub AllKeep-map :
      {A : Type 0} (f : A → Panel S) (list : List A)
      → ((a : A) → KeepsFrame C P (f a))
      → AllKeep C P (map f list)
  unfolding AllKeep
  AllKeep-map f [] kept = tt
  AllKeep-map f (a ∷ rest) kept = (kept a, AllKeep-map f rest kept)

  pub KeepsFrame-observe :
      (f : VcsGuiApp S → Panel S)
      → ((app : VcsGuiApp S) → KeepsFrame C P (f app))
      → KeepsFrame C P (observe f)
  unfolding observe
  KeepsFrame-observe f kept = record { at = λ fr w h. (kept fr.app).at fr w h }

  pub KeepsFrame-when :
      (test : Bool) (p : Panel S) → KeepsFrame C P p → KeepsFrame C P (when test p)
  unfolding when
  KeepsFrame-when true p kept = record { at = λ fr w h. kept.at fr w h }
  KeepsFrame-when false p kept = record { at = λ fr w h. h }

  pub KeepsFrame-either :
      (test : Bool) (p q : Panel S)
      → KeepsFrame C P p
      → KeepsFrame C P q
      → KeepsFrame C P (either test p q)
  unfolding either
  KeepsFrame-either true p q hp hq = record { at = λ fr w h. hp.at fr w h }
  KeepsFrame-either false p q hp hq = record { at = λ fr w h. hq.at fr w h }

  pub KeepsFrame-paint : (style : Style) (text : Text) → KeepsFrame {S = S} C P (paint style text)
  unfolding paint
  KeepsFrame-paint style text = record { at = λ fr w h. h }

  pub KeepsFrame-act : (m : Method S) → Keeps C P m → KeepsFrame C P (act m)
  unfolding act
  KeepsFrame-act m kept = record {
    at = λ fr w h.
        let after = kept.at fr.app w h in
        elim (Option-cases (m fr.app w)) [
          | inl e ↦ rw (act, e) (rw e at after)
          | inr ((app, w'), e) ↦ rw (act, e) (rw e at after)
        ];
  }

  pub KeepsFrame-assign :
      (set : Setter S)
      → ((app : VcsGuiApp S) → P app.merge_form.editor → P (set app).merge_form.editor)
      → KeepsFrame C P (assign set)
  unfolding assign
  KeepsFrame-assign set kept = record { at = λ fr w h. kept fr.app h }

  pub KeepsFrame-text_edit :
      (ui : Ui S) (get : VcsGuiApp S → Text) (set : Text → Setter S)
      → ((t : Text)
          → (app : VcsGuiApp S) → P app.merge_form.editor
          → P (set t app).merge_form.editor)
      → KeepsFrame C P (text_edit ui get set)
  unfolding text_edit
  KeepsFrame-text_edit ui get set kept = record { at = λ fr w h. kept _ fr.app h }

  pub KeepsFrame-checkbox :
      (ui : Ui S) (text : Text) (get : VcsGuiApp S → Bool) (set : Bool → Setter S)
      → ((b : Bool)
          → (app : VcsGuiApp S) → P app.merge_form.editor
          → P (set b app).merge_form.editor)
      → KeepsFrame C P (checkbox ui text get set)
  unfolding checkbox
  KeepsFrame-checkbox ui text get set kept = record { at = λ fr w h. kept _ fr.app h }

  if-keeps :
      (b : Bool) (p : Panel S) (fr' fr : Frame S) (w : S.World)
      → KeepsFrame C P p
      → P fr'.app.merge_form.editor
      → P fr.app.merge_form.editor
      → LeavesFrame C P (if b then p fr' w else some (fr, w))
  if-keeps true p fr' fr w kept h' h = kept.at fr' w h'
  if-keeps false p fr' fr w kept h' h = h

  pub KeepsFrame-button_enabled :
      (ui : Ui S) (enabled : Bool) (text : Text) (p : Panel S)
      → KeepsFrame C P p
      → KeepsFrame C P (button_enabled ui enabled text p)
  unfolding button_enabled
  KeepsFrame-button_enabled ui enabled text p kept = record {
    at = λ fr w h. if-keeps _ p _ _ w kept h h;
  }

  pub KeepsFrame-on_click :
      (ui : Ui S) (text : Text) (p : Panel S)
      → KeepsFrame C P p
      → KeepsFrame C P (on_click ui text p)
  unfolding on_click
  KeepsFrame-on_click ui text p kept = KeepsFrame-button_enabled ui true text p kept

  pub KeepsFrame-choose_value :
      (ui : Ui S) (text : Text) (set : Setter S) (p : Panel S)
      → ((app : VcsGuiApp S) → P app.merge_form.editor → P (set app).merge_form.editor)
      → KeepsFrame C P p
      → KeepsFrame C P (choose_value ui text set p)
  unfolding choose_value
  KeepsFrame-choose_value ui text set p assigned kept = record {
    at = λ fr w h. if-keeps _ p _ _ w kept (assigned fr.app h) h;
  }

  pub KeepsFrame-combo_box :
      (ui : Ui S) (text selected : Text) (choices : List (Panel S))
      → AllKeep C P choices
      → KeepsFrame C P (combo_box ui text selected choices)
  unfolding combo_box
  KeepsFrame-combo_box ui text selected choices kept = record {
    at = λ fr w h. if-keeps _ (run_all choices) _ _ w (KeepsFrame-run_all choices kept) h h;
  }

pub ruleset keeps_frame = (
  KeepsFrame-run_all, AllKeep-nil, AllKeep-cons, AllKeep-map, KeepsFrame-observe, KeepsFrame-when,
  KeepsFrame-either, KeepsFrame-paint, KeepsFrame-act, KeepsFrame-assign, KeepsFrame-text_edit,
  KeepsFrame-checkbox, KeepsFrame-button_enabled, KeepsFrame-on_click, KeepsFrame-choose_value,
  KeepsFrame-combo_box,
)
