-- ===== src/Draw/Reach.antt =====
-- The states that the client of gui/src/main.rs can be in: the one that `VcsGuiApp::new` builds, and
-- those that `eframe::App::update` leaves, frame by frame, for whatever the user does and whatever
-- the world outside answers.
use dqrvcs.Prelude.{
  none, some, false, Bool-cases, List, [], ◌∷◌, ◌≡◌, refl, ◌⊎◌, inl, inr, is_empty, Option, some,
  Option-cases, ok, err, sym, ap,
}
use dqrvcs.Text.{Text}
use dqrvcs.Text.Trim.{trim}
use dqrvcs.Paths.{FilePath}
use dqrvcs.Conflict.{
  ConflictSection, ConflictEditorState, ConflictLineSource, parse_conflict_sections,
  apply_conflict_choice_to_all_hunks, compose_conflict_editor_output,
}
use dqrvcs.Conflict.SameLines.{
  IsRechosen, parse-IsRechosen, apply-IsRechosen, compose-apply_rechosen,
}
use dqrvcs.Conflict.Sides.{version}
use dqrvcs.App.Editor.{use_side_for_all_hunks}
use dqrvcs.Act.Returned.{bind-ok, ret-ok, lift-ok, fail-ok, map_err-try_call-ok}
use dqrvcs.Act.Safe.{Unless}
use dqrvcs.System.{System}
use dqrvcs.Files.{load_conflict_editor_state}
use dqrvcs.App.{VcsGuiApp}
use dqrvcs.App.Start.{build_app, new_with_runner, new, initial_state}
use dqrvcs.App.Keeps.{Leaves, Closed, Keeps-refresh}
use dqrvcs.Draw.{Ui}
use dqrvcs.Draw.Hunks.{draw_sections}
use dqrvcs.Draw.Hunks.Sections.{IsEdited, edited-IsRechosen, edit_sections-IsEdited}
use dqrvcs.Draw.Screen.{update}
use dqrvcs.Draw.Keeps.{KeepsFrame}
use dqrvcs.Draw.Keeps.Frames.{update-keeps}

-- Started, then drawn frame by frame. Between two frames the world may change in any way.
pub data Reached (S : System) : VcsGuiApp S → Type 0 where
  started : (w w' : S.World) (app : VcsGuiApp S) → new S w ≡ some (app, w') → Reached S app
  framed :
      (ui : Ui S) (w w' : S.World) (app after : VcsGuiApp S)
      → Reached S app
      → update ui app w ≡ some (after, w')
      → Reached S after

module _ (S : System) where
  -- The editor holds a file: its sections are those of a text that was read, with other choices, and
  -- there is no parse error.
  pub record IsLoaded (editor : ConflictEditorState) : Type 0 where
    pub path : FilePath
    pub world : S.World
    pub raw : Text
    pub was_read : (S.read_to_string path world).0 ≡ ok raw
    pub sections : List ConflictSection
    pub parsed : parse_conflict_sections raw ≡ ok sections
    pub rechosen : IsRechosen sections editor.sections
    pub no_error : editor.parse_error ≡ []

  -- The editor holds a file, or no sections.
  abbrev pub IsEditable : ConflictEditorState → Type 0
  IsEditable editor = (editor.sections ≡ []) ⊎ IsLoaded editor

  with_sections :
      (editor : ConflictEditorState) (ss : List ConflictSection)
      → (editor.sections ≡ [] → ss ≡ [])
      → ((file : List ConflictSection) → IsRechosen file editor.sections → IsRechosen file ss)
      → IsEditable editor
      → IsEditable (record editor { sections = ss })
  with_sections editor ss none_stay kept (inl e) = inl (none_stay e)
  with_sections editor ss none_stay kept (inr h) = inr (record {
    path = h.path;
    world = h.world;
    raw = h.raw;
    was_read = h.was_read;
    sections = h.sections;
    parsed = h.parsed;
    rechosen = kept h.sections h.rechosen;
    no_error = h.no_error;
  })

  apply-nil :
      (ss : List ConflictSection) (source : ConflictLineSource)
      → ss ≡ []
      → apply_conflict_choice_to_all_hunks ss source ≡ []
  unfolding apply_conflict_choice_to_all_hunks
  apply-nil ss source e = rw e refl

  made-IsLoaded :
      (file : FilePath) (path raw : Text) (w : S.World) (sections : List ConflictSection)
      (editor : ConflictEditorState)
      → (S.read_to_string file w).0 ≡ ok raw
      → parse_conflict_sections raw ≡ ok sections
      → record { file_path = path; sections = sections; parse_error = [] } ≡ editor
      → IsLoaded editor
  made-IsLoaded file path raw w sections editor was_read parsed same =
      let same_sections : editor.sections ≡ sections = ap ConflictEditorState.sections (sym same) in
      record {
        path = file;
        world = w;
        raw = raw;
        was_read = was_read;
        sections = sections;
        parsed = parsed;
        rechosen = rw same_sections (parse-IsRechosen raw sections parsed);
        no_error = ap ConflictEditorState.parse_error (sym same);
      }

  opened-IsLoaded :
      (repo : FilePath) (path : Text) (editor : ConflictEditorState) (w w' : S.World)
      → is_empty (trim path) ≡ false
      → load_conflict_editor_state S repo path w ≡ some (ok editor, w')
      → IsLoaded editor
  unfolding load_conflict_editor_state
  opened-IsLoaded repo path editor w w' filled e =
      let (file, w1, e1, rest1) = bind-ok _ _ w editor w' (rw filled at e) in
      let (raw, w2, e2, rest2) = bind-ok _ _ w1 editor w' rest1 in
      let (sections, w3, e3, rest3) = bind-ok _ _ w2 editor w' rest2 in
      made-IsLoaded file (trim path) raw w1 sections editor
        (map_err-try_call-ok _ (S.read_to_string file) raw w1 w2 e2) (lift-ok _ sections w2 w3 e3)
        (ret-ok _ editor w3 w' rest3)

  loaded-IsEditable :
      (repo : FilePath) (path : Text) (editor : ConflictEditorState) (w w' : S.World)
      → load_conflict_editor_state S repo path w ≡ some (ok editor, w')
      → IsEditable editor
  unfolding load_conflict_editor_state
  loaded-IsEditable repo path editor w w' e = elim (Bool-cases (is_empty (trim path))) [
    | inl empty ↦ absurd (fail-ok _ editor w w' (rw empty at e))
    | inr filled ↦ inr (opened-IsLoaded repo path editor w w' filled e)
  ]

  may_be_cut : {X : Type 0} (o : Option X) → Unless (Unit {0}) o
  may_be_cut none = tt
  may_be_cut (some x) = tt

  IsEditable-Closed : Closed S (Unit {0}) IsEditable
  IsEditable-Closed = record {
    clock = λ w. may_be_cut (S.utc_now w);
    nanos = λ w. may_be_cut (S.timestamp_nanos w);
    sums = λ gossip e. tt;
    cut = λ repo w w' raw e. may_be_cut _;
    empty = inl refl;
    failed = λ path e. inl refl;
    loaded = loaded-IsEditable;
    one_side = λ editor source h.
        with_sections editor _ (apply-nil editor.sections source)
          (λ file. apply-IsRechosen source file editor.sections) h;
  }

  edited-nil : (ss ts : List ConflictSection) → IsEdited ss ts → ss ≡ [] → ts ≡ []
  edited-nil ss [] edited e = refl
  edited-nil ss (t ∷ ts) edited e = absurd (rw e at edited)

  KeepsFrame-draw_sections : (ui : Ui S) → KeepsFrame (Unit {0}) IsEditable (draw_sections ui)
  unfolding draw_sections
  KeepsFrame-draw_sections ui = record {
    at = λ fr w h.
        let editor = fr.app.merge_form.editor in
        let (ss, items, run, edited) = edit_sections-IsEdited ui 0 editor.sections fr.items in
        rw (draw_sections, run)
          (with_sections editor ss (edited-nil editor.sections ss edited)
            (λ file r. edited-IsRechosen file editor.sections ss r edited) h);
  }

  initial-IsEditable :
      (repo binary : FilePath) (last_refresh : S.Instant) (app : VcsGuiApp S)
      → initial_state S repo binary last_refresh ≡ app
      → IsEditable app.merge_form.editor
  unfolding initial_state
  initial-IsEditable repo binary last_refresh app e =
      inl (ap (λ a. (VcsGuiApp.merge_form a).editor.sections) (sym e))

  build_app-IsEditable :
      (w w' : S.World) (app : VcsGuiApp S)
      → build_app S w ≡ some (ok app, w')
      → IsEditable app.merge_form.editor
  unfolding build_app
  build_app-IsEditable w w' app e =
      let (repo, w1, e1, rest1) = bind-ok _ _ w app w' e in
      let (binary, w2, e2, rest2) = bind-ok _ _ w1 app w' rest1 in
      let (now, w3, e3, rest3) = bind-ok _ _ w2 app w' rest2 in
      let (last_refresh, w4, e4, rest4) = bind-ok _ _ w3 app w' rest3 in
      initial-IsEditable repo binary last_refresh app (ret-ok _ app w4 w' rest4)

  new-IsEditable : (w : S.World) → Leaves (Unit {0}) IsEditable (new S w)
  unfolding new new_with_runner
  new-IsEditable w = elim (Option-cases (build_app S w)) [
    | inl e ↦ rw (new, new_with_runner, e) tt
    | inr ((err message, w'), e) ↦ rw (new, new_with_runner, e) tt
    | inr ((ok app, w'), e) ↦
        rw (new, new_with_runner, e)
          ((Keeps-refresh IsEditable-Closed).at app w' (build_app-IsEditable w w' app e))
  ]

  refreshed-IsEditable :
      (o : Option (VcsGuiApp S × S.World)) (app : VcsGuiApp S) (w : S.World)
      → Leaves (Unit {0}) IsEditable o
      → o ≡ some (app, w)
      → IsEditable app.merge_form.editor
  refreshed-IsEditable o app w h e = rw e at h

  -- In every state that the client reaches, the conflict editor has no sections, or they are those of
  -- a file that was read and parsed, with the file's text and lines, one choice for each line of the
  -- longer side of a hunk, and no parse error.
  pub client-IsEditable : (app : VcsGuiApp S) → Reached S app → IsEditable app.merge_form.editor
  client-IsEditable app (started w w' _ e) = refreshed-IsEditable _ app w' (new-IsEditable w) e
  client-IsEditable app (framed ui w w' before _ reached e) =
      refreshed-IsEditable _ app w'
        (update-keeps IsEditable-Closed ui (KeepsFrame-draw_sections ui) before w (may_be_cut _)
          (client-IsEditable before reached))
        e

  -- The editor has no sections, or with one side taken for all hunks its output is that side's
  -- version of a file that was read and parsed.
  abbrev pub SavesSide : ConflictLineSource → VcsGuiApp S → Type 0
  SavesSide source app =
      (app.merge_form.editor.sections ≡ [])
      ⊎ ((path : FilePath) × (world : S.World) × (raw : Text) × (file : List ConflictSection)
          × ((S.read_to_string path world).0 ≡ ok raw)
          × (parse_conflict_sections raw ≡ ok file)
          × (compose_conflict_editor_output
                (use_side_for_all_hunks S source app).merge_form.editor.sections
              ≡ version source file))

  editable-SavesSide :
      (source : ConflictLineSource) (app : VcsGuiApp S)
      → IsEditable app.merge_form.editor
      → SavesSide source app
  unfolding use_side_for_all_hunks
  editable-SavesSide source app (inl e) = inl e
  editable-SavesSide source app (inr h) = inr (
    h.path,
    h.world,
    h.raw,
    h.sections,
    h.was_read,
    h.parsed,
    compose-apply_rechosen source h.sections app.merge_form.editor.sections h.rechosen,
  )

  -- In every state that the client reaches, whatever lines were chosen before, the button that takes
  -- one side for all hunks leaves an editor whose output is that side's version of a file that was
  -- read and parsed, unless the editor has no sections.
  pub client-SavesSide :
      (source : ConflictLineSource) (app : VcsGuiApp S) → Reached S app → SavesSide source app
  client-SavesSide source app reached =
      editable-SavesSide source app (client-IsEditable app reached)
