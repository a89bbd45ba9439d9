-- ===== src/Draw.antt =====
-- Drawing a frame: the `draw_*` methods of gui/src/main.rs and `eframe::App::update`. A panel adds
-- widgets to the frame one by one, and may change the state for those that follow.
pub mod Labels
pub mod Repo
pub mod Hunks
pub mod Merge
pub mod History
pub mod Gossip
pub mod Screen
pub mod Keeps
pub mod Reach
pub mod Ends
pub mod Idle
use dqrvcs.Prelude.{
  ℕ, Bool, true, false, ◌&&◌, List, [], ◌∷◌, ◌++◌, if◌then◌else◌, Option, none, some, length,
}
use dqrvcs.Text.{Text, codes}
use dqrvcs.System.{System}
use dqrvcs.App.{
  VcsGuiApp, Method, ProposeForm, VoteForm, GitForm, MergeForm, HistoryForm, ConsensusForm,
}

-- What egui answers for the widgets of one frame, by their number in it: a button that is clicked,
-- a `selectable_value` or `radio_value` that is `changed()`, a combo box that is open, a text field
-- that loses the focus on Enter, and what a checkbox, a text field and a `DragValue` leave.
pub record Ui (S : System) : Type 0 where
  pub clicked : ℕ → Bool
  pub changed : ℕ → Bool
  pub opened : ℕ → Bool
  pub entered : ℕ → Bool
  pub checked : ℕ → Bool → Bool
  pub typed : ℕ → Text → Text
  pub dragged : ℕ → S.Seconds → S.Seconds

pub data Style : Type 0 where
  heading label strong monospace button choice check field : Style
  colored : ℕ → ℕ → ℕ → Style

pub record Item : Type 0 where
  pub style : Style
  pub text : Text

-- The state, and what was added to the frame so far. Boxes, columns and scroll areas place the
-- items on the screen and are left out.
pub record Frame (S : System) : Type 0 where
  pub app : VcsGuiApp S
  pub items : List Item

module _ (S : System) where
  abbrev pub Panel : Type 0
  Panel = Frame S → S.World → Option (Frame S × S.World)

  abbrev pub Setter : Type 0
  Setter = VcsGuiApp S → VcsGuiApp S

module _ {S : System} where
  -- One more item.
  abbrev pub add : Style → Text → Frame S → Frame S
  add style text fr = record fr { items = fr.items ++ record { style = style; text = text } ∷ [] }

  unfoldable pub run_all : List (Panel S) → Panel S
  run_all [] fr w = some (fr, w)
  run_all (p ∷ ps) fr w = elim (p fr w) [ none ↦ none | some (fr', w') ↦ run_all ps fr' w' ]

  -- A panel that depends on the state as it is when its turn comes.
  unfoldable pub observe : (VcsGuiApp S → Panel S) → Panel S
  observe f fr w = f fr.app fr w

  unfoldable pub when : Bool → Panel S → Panel S
  when test p fr w = if test then p fr w else some (fr, w)

  unfoldable pub either : Bool → Panel S → Panel S → Panel S
  either test p q fr w = if test then p fr w else q fr w

  unfoldable pub paint : Style → Text → Panel S
  paint style text fr w = some (add style text fr, w)

  -- A method of the state.
  unfoldable pub act : Method S → Panel S
  act m fr w = elim (m fr.app w) [
    | none ↦ none
    | some (app, w') ↦ some (record fr { app = app }, w')
  ]

  unfoldable pub assign : Setter S → Panel S
  assign set fr w = some (record fr { app = set fr.app }, w)

module _ {S : System} (ui : Ui S) where
  -- `if ui.add_enabled(enabled, Button::new(text)).clicked() { .. }`
  unfoldable pub button_enabled : Bool → Text → Panel S → Panel S
  button_enabled enabled text p fr w =
      let k = length fr.items in
      let fr' = add button text fr in if enabled && ui.clicked k then p fr' w else some (fr', w)

  unfoldable pub on_click : Text → Panel S → Panel S
  unfolding button_enabled
  on_click text p = button_enabled true text p

  -- `selectable_value` and `radio_value`: the value is assigned, and `.changed()` is answered.
  unfoldable pub choose_value : Text → Setter S → Panel S → Panel S
  choose_value text set p fr w =
      let k = length fr.items in
      let fr' = add choice text fr in
      if ui.changed k then p (record fr' { app = set fr'.app }) w else some (fr', w)

  -- `ComboBox::from_label(text)`, whose choices are added when it is open.
  unfoldable pub combo_box : Text → Text → List (Panel S) → Panel S
  unfolding run_all
  combo_box text selected choices fr w =
      let k = length fr.items in
      let fr' = add label text (add choice selected fr) in
      if ui.opened k then run_all choices fr' w else some (fr', w)

  unfoldable pub text_edit : (VcsGuiApp S → Text) → (Text → Setter S) → Panel S
  text_edit get set fr w =
      let text = ui.typed (length fr.items) (get fr.app) in
      some (add field text (record fr { app = set text fr.app }), w)

  unfoldable pub checkbox : Text → (VcsGuiApp S → Bool) → (Bool → Setter S) → Panel S
  checkbox text get set fr w =
      let value = ui.checked (length fr.items) (get fr.app) in
      some (add check text (record fr { app = set value fr.app }), w)

module _ {S : System} where
  abbrev pub with_propose : (ProposeForm → ProposeForm) → Setter S
  with_propose f app = record app { propose_form = f app.propose_form }

  abbrev pub with_vote : (VoteForm → VoteForm) → Setter S
  with_vote f app = record app { vote_form = f app.vote_form }

  abbrev pub with_git : (GitForm → GitForm) → Setter S
  with_git f app = record app { git_form = f app.git_form }

  abbrev pub with_merge : (MergeForm → MergeForm) → Setter S
  with_merge f app = record app { merge_form = f app.merge_form }

  abbrev pub with_history : (HistoryForm → HistoryForm) → Setter S
  with_history f app = record app { history_form = f app.history_form }

  abbrev pub with_consensus : (ConsensusForm → ConsensusForm) → Setter S
  with_consensus f app = record app { consensus_form = f app.consensus_form }
