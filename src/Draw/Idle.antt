-- ===== src/Draw/Idle.antt =====
-- A frame in which the user does nothing: one rule for each way to build a panel of gui/src/main.rs.
pub mod Panels
pub mod Frames
use dqrvcs.Prelude.{
  ℕ, Bool, true, false, ◌&&◌, List, [], ◌∷◌, ◌++◌, ◌≡◌, refl, ap, if◌then◌else◌, map, Option, none,
  some, All,
}
use dqrvcs.Text.{Text}
use dqrvcs.Conflict.{ConflictSection, plain, hunk}
use dqrvcs.Conflict.Choices.{IsComplete}
use dqrvcs.System.{System}
use dqrvcs.App.{VcsGuiApp}
use dqrvcs.Draw.{
  Ui, Item, Frame, Panel, Setter, Style, add, run_all, observe, when, either, paint, act, assign,
  button_enabled, on_click, choose_value, combo_box, text_edit, checkbox,
}

-- Nothing is clicked, chosen, opened or entered, and fields keep what they show.
abbrev pub idle : {S : System} → Ui S
idle = record {
  clicked = λ k. false;
  changed = λ k. false;
  opened = λ k. false;
  entered = λ k. false;
  checked = λ k b. b;
  typed = λ k t. t;
  dragged = λ k s. s;
}

-- A hunk has a choice for each of its lines.
abbrev pub HasChoices : ConflictSection → Type 0
HasChoices (plain text) = Unit
HasChoices (hunk h) = IsComplete h

module _ {S : System} where
  -- The panel adds items, and leaves the state and the world as they are.
  pub record Still (p : Panel S) : Type 0 where
    pub at :
        (app : VcsGuiApp S) (items : List Item) (w : S.World)
        → All HasChoices app.merge_form.editor.sections
        → (items' : List Item) × (p (record { app = app; items = items }) w
            ≡ some (record { app = app; items = items' }, w))

  pub AllStill : List (Panel S) → Type 0
  AllStill [] = Unit
  AllStill (p ∷ ps) = Still p × AllStill ps

  run_all-still :
      (ps : List (Panel S)) (app : VcsGuiApp S) (items : List Item) (w : S.World)
      → AllStill ps
      → All HasChoices app.merge_form.editor.sections
      → (items' : List Item) × (run_all ps (record { app = app; items = items }) w
          ≡ some (record { app = app; items = items' }, w))
  unfolding run_all AllStill
  run_all-still [] app items w still h = (items, refl)
  run_all-still (p ∷ ps) app items w (still, rest) h =
      let (items1, e) = still.at app items w h in
      let (items2, f) = run_all-still ps app items1 w rest h in (items2, rw (run_all, e) f)

  pub Still-run_all : (ps : List (Panel S)) → AllStill ps → Still (run_all ps)
  Still-run_all ps still = record { at = λ app items w h. run_all-still ps app items w still h }

  pub AllStill-cons :
      (p : Panel S) (ps : List (Panel S)) → Still p → AllStill ps → AllStill (p ∷ ps)
  unfolding AllStill
  AllStill-cons p ps still rest = (still, rest)

  pub AllStill-map :
      {A : Type 0} (f : A → Panel S) (list : List A)
      → ((a : A) → Still (f a))
      → AllStill (map f list)
  unfolding AllStill
  AllStill-map f [] still = tt
  AllStill-map f (a ∷ rest) still = (still a, AllStill-map f rest still)

  pub Still-observe :
      (f : VcsGuiApp S → Panel S) → ((app : VcsGuiApp S) → Still (f app)) → Still (observe f)
  unfolding observe
  Still-observe f still = record { at = λ app items w h. (still app).at app items w h }

  pub Still-when : (test : Bool) (p : Panel S) → Still p → Still (when test p)
  unfolding when
  Still-when true p still = record { at = λ app items w h. still.at app items w h }
  Still-when false p still = record { at = λ app items w h. (items, refl) }

  pub never : (p : Panel S) → Still (when false p)
  unfolding when
  never p = record { at = λ app items w h. (items, refl) }

  pub Still-either : (test : Bool) (p q : Panel S) → Still p → Still q → Still (either test p q)
  unfolding either
  Still-either true p q hp hq = record { at = λ app items w h. hp.at app items w h }
  Still-either false p q hp hq = record { at = λ app items w h. hq.at app items w h }

  pub Still-paint : (style : Style) (text : Text) → Still (paint style text)
  unfolding paint
  Still-paint style text = record { at = λ app items w h. (_, refl) }

  pub Still-button_enabled :
      (enabled : Bool) (text : Text) (p : Panel S) → Still (button_enabled idle enabled text p)
  unfolding button_enabled
  Still-button_enabled true text p = record { at = λ app items w h. (_, refl) }
  Still-button_enabled false text p = record { at = λ app items w h. (_, refl) }

  pub Still-on_click : (text : Text) (p : Panel S) → Still (on_click idle text p)
  unfolding on_click
  Still-on_click text p = Still-button_enabled true text p

  pub Still-choose_value :
      (text : Text) (set : Setter S) (p : Panel S) → Still (choose_value idle text set p)
  unfolding choose_value
  Still-choose_value text set p = record { at = λ app items w h. (_, refl) }

  pub Still-combo_box :
      (text selected : Text) (choices : List (Panel S))
      → Still (combo_box idle text selected choices)
  unfolding combo_box
  Still-combo_box text selected choices = record { at = λ app items w h. (_, refl) }

  pub Still-text_edit :
      (get : VcsGuiApp S → Text) (set : Text → Setter S)
      → ((app : VcsGuiApp S) → set (get app) app ≡ app)
      → Still (text_edit idle get set)
  unfolding text_edit
  Still-text_edit get set same = record {
    at = λ app items w h. (
      _,
      ap (λ a. some (add Style.field (get app) (record { app = a; items = items }), w)) (same app),
    );
  }

  pub Still-checkbox :
      (text : Text) (get : VcsGuiApp S → Bool) (set : Bool → Setter S)
      → ((app : VcsGuiApp S) → set (get app) app ≡ app)
      → Still (checkbox idle text get set)
  unfolding checkbox
  Still-checkbox text get set same = record {
    at = λ app items w h. (
      _,
      ap (λ a. some (add Style.check text (record { app = a; items = items }), w)) (same app),
    );
  }

pub AllStill-nil : (S : System) → AllStill {S = S} []
unfolding AllStill
AllStill-nil S = tt

pub ruleset still_rules = (
  Still-run_all, AllStill-nil, AllStill-cons, AllStill-map, Still-observe, Still-when, Still-either,
  Still-paint, Still-button_enabled, Still-on_click, Still-choose_value, Still-combo_box,
  Still-text_edit, Still-checkbox,
)
