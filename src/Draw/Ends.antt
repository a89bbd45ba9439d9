-- ===== src/Draw/Ends.antt =====
-- The panics of a frame, for `eframe::App::update` of gui/src/main.rs and all that it calls: a row of
-- `git status` that `parse_status_entries` cuts inside a character, a clock, a sum of votes where
-- overflow is checked, and the period of the refreshes.
use dqrvcs.Prelude.{
  true, false, List, [], ◌∷◌, ◌≡◌, refl, Option, none, some, inl, inr, ok, err, Bool-cases,
  is_empty,
}
use dqrvcs.Text.{Text, codes}
use dqrvcs.Text.Trim.{trim}
use dqrvcs.Paths.{FilePath}
use dqrvcs.Status.Ascii.{AllAscii, trim-ascii, parse_status_entries-ascii}
use dqrvcs.Conflict.{ConflictEditorState}
use dqrvcs.Act.Safe.{Unless}
use dqrvcs.System.{System, Output}
use dqrvcs.Act.Returned.{bind-ok, lift-ok, map_err-try_call-ok}
use dqrvcs.Git.{run_git, git_result, words}
use dqrvcs.App.{VcsGuiApp}
use dqrvcs.App.Keeps.{Leaves, Closed}
use dqrvcs.Draw.{Ui}
use dqrvcs.Draw.Hunks.{draw_sections}
use dqrvcs.Draw.Hunks.Sections.{edit_sections-IsEdited}
use dqrvcs.Draw.Screen.{refresh_period, update}
use dqrvcs.Draw.Keeps.{KeepsFrame}
use dqrvcs.Draw.Keeps.Frames.{update-keeps}

ok_same : {A : Type 0} (a b : A) → ok a ≡ ok b → a ≡ b
ok_same a b e = cc

err_differs : {A : Type 0} {m : Text} (a : A) → err m ≡ ok a → ⊥
err_differs a e = cc

true_differs : false ≡ true → ⊥
true_differs e = cc

has_result : {A : Type 0} (o : Option A) (a : A) → o ≡ some a → Unless ⊥ o
has_result none a e = absurd (cc)
has_result (some b) a e = tt

module _ (S : System) where
  -- What git prints for `git status` is ASCII, as it is where git quotes paths.
  abbrev pub StatusIsAscii : Type 0
  StatusIsAscii =
      (repo : FilePath) (w : S.World) (output : Output)
      → (S.process_output (codes "git") (codes "-C" ∷ repo ∷ words ("status" ∷ "--short" ∷ [])) w).0
        ≡ ok output
      → AllAscii output.stdout

  git_result-ascii :
      (args : List Text) (output : Output) (raw : Text)
      → AllAscii output.stdout
      → git_result S args output ≡ ok raw
      → AllAscii raw
  unfolding git_result
  git_result-ascii args output raw h e = elim (Bool-cases output.success) [
    | inl b ↦ rw (ok_same (trim output.stdout) raw (rw b at e)) at (trim-ascii output.stdout h)
    | inr b ↦ elim (Bool-cases (is_empty (trim output.stderr))) [
      | inl f ↦ absurd (err_differs raw (rw (b, f) at e))
      | inr f ↦ absurd (err_differs raw (rw (b, f) at e))
    ]
  ]

  run_git-ascii :
      StatusIsAscii
      → (repo : FilePath) (w w' : S.World) (raw : Text)
      → run_git S repo (words ("status" ∷ "--short" ∷ [])) w ≡ some (ok raw, w')
      → AllAscii raw
  unfolding run_git
  run_git-ascii ascii repo w w' raw e =
      let args = words ("status" ∷ "--short" ∷ []) in
      let (output, w1, e1, rest) = bind-ok _ _ w raw w' e in
      git_result-ascii args output raw
        (ascii repo w output (
          map_err-try_call-ok _ (S.process_output (codes "git") (codes "-C" ∷ repo ∷ args)) output w
            w1 e1))
        (lift-ok _ raw w1 w' rest)

  abbrev Anything : ConflictEditorState → Type 0
  Anything editor = Unit

  -- The clock shows a time from 1970 on, one that fits in the nanoseconds of 64 bits.
  abbrev pub ClocksRun : Type 0
  ClocksRun =
      (w : S.World)
      → ((shown : (Text → S.E.Time) × S.World) × (S.utc_now w ≡ some shown))
        × ((nanos : Text × S.World) × (S.timestamp_nanos w ≡ some nanos))

  Anything-Closed : StatusIsAscii → ClocksRun → S.overflow_checks ≡ false → Closed S ⊥ Anything
  Anything-Closed ascii clocks unchecked = record {
    clock = λ w. let (shown, e) = (clocks w).0 in has_result _ shown e;
    nanos = λ w. let (text, e) = (clocks w).1 in has_result _ text e;
    sums = λ gossip e. true_differs (rw unchecked at e);
    cut = λ repo w w' raw e.
        has_result _ _ (parse_status_entries-ascii raw (run_git-ascii ascii repo w w' raw e));
    empty = tt;
    failed = λ path e. tt;
    loaded = λ repo path editor w w' e. tt;
    one_side = λ editor source h. tt;
  }

  KeepsFrame-draw_sections : (ui : Ui S) → KeepsFrame ⊥ Anything (draw_sections ui)
  unfolding draw_sections
  KeepsFrame-draw_sections ui = record {
    at = λ fr w h.
        let (ss, items, run, edited) =
          edit_sections-IsEdited ui 0 fr.app.merge_form.editor.sections fr.items in
        rw (draw_sections, run) tt;
  }

  left_some :
      (o : Option (VcsGuiApp S × S.World))
      → Leaves ⊥ Anything o
      → (after : VcsGuiApp S) × (w' : S.World) × (o ≡ some (after, w'))
  left_some none h = absurd h
  left_some (some (after, w')) h = (after, w', refl)

  -- In a release build, where git prints the answers to `git status` in ASCII and the clocks run,
  -- every frame ends with a new state and without a panic: for any state before it whose refresh
  -- period has a duration, reached or not, whatever the user does and whatever commands and files
  -- answer, errors included.
  pub update-ends :
      StatusIsAscii
      → ClocksRun
      → S.overflow_checks ≡ false
      → (ui : Ui S) (app : VcsGuiApp S) (w : S.World) (period : S.Duration)
      → refresh_period S app ≡ some period
      → (after : VcsGuiApp S) × (w' : S.World) × (update ui app w ≡ some (after, w'))
  update-ends ascii clocks unchecked ui app w period runs = left_some (update ui app w) (
      update-keeps (Anything-Closed ascii clocks unchecked) ui (KeepsFrame-draw_sections ui) app w
        (has_result _ period runs) tt)
