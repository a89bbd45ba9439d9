-- ===== src/App/Selections.antt =====
-- What `VcsGuiApp::refresh` (gui/src/main.rs) leaves selected.
use dqrvcs.Prelude.{
  Bool, true, false, List, [], ◌∷◌, ◌≡◌, refl, ◌⊎◌, inl, inr, if◌then◌else◌, is_empty, any,
  Bool-cases, Option, none, some, Option-cases, Result, ok, err,
}
use dqrvcs.Text.{Text, codes, eqb, eqb_iff}
use dqrvcs.Text.Trim.{trim}
use dqrvcs.Paths.{FilePath}
use dqrvcs.Status.{StatusEntry}
use dqrvcs.History.{CommitSummary}
use dqrvcs.System.{System}
use dqrvcs.Git.{RepoData, load_repo_data, load_diff_output}
use dqrvcs.App.{VcsGuiApp, GitForm, MergeForm, HistoryForm}
use dqrvcs.App.Refresh.{
  diff_text, reselect, follow_git, follow_merge, follow_history, follow_before_diff,
  follow_after_diff, refresh_diff_output, follow_data, load_gossip, take_repo, refresh,
}

-- The selection is that of one of the items, or nothing where there is no item.
abbrev pub IsSelection : {A : Type 0} → (A → Text) → List A → Text → Type 0
IsSelection f items selected =
    (any (λ a. eqb (f a) selected) items ≡ true) ⊎ ((items ≡ []) × (selected ≡ []))

eqb_refl : (t : Text) → eqb t t ≡ true
eqb_refl t = (eqb_iff t t).1 refl

keep_or_first :
    {A : Type 0} (f : A → Text) (a : A) (rest : List A) (selected : Text) (b : Bool)
    → any (λ x. eqb (f x) selected) (a ∷ rest) ≡ b
    → IsSelection f (a ∷ rest) (if b then selected else f a)
unfolding any
keep_or_first f a rest selected true e = inl e
keep_or_first f a rest selected false e = inl (rw (eqb_refl (f a)) refl)

reselect-IsSelection :
    {A : Type 0} (f : A → Text) (items : List A) (selected : Text)
    → IsSelection f items (reselect f items selected)
unfolding reselect any
reselect-IsSelection f [] selected = inr (refl, refl)
reselect-IsSelection f (a ∷ rest) selected =
    keep_or_first f a rest selected (any (λ b. eqb (f b) selected) (a ∷ rest)) refl

-- The forms select a changed file, a conflict file and a commit of the data, and the conflict
-- editor holds no other file than the selected one.
pub record IsConsistent (repo : RepoData) (git : GitForm) (merge : MergeForm)
    (history : HistoryForm) : Type 0 where
  pub diff_file : IsSelection StatusEntry.path repo.status_entries git.selected_diff_file
  pub conflict_file : IsSelection (λ path. path) repo.conflict_files merge.selected_conflict_file
  pub commit : IsSelection CommitSummary.hash repo.recent_commits history.selected_commit
  pub editor :
      (is_empty merge.editor.file_path ≡ true)
      ⊎ (merge.editor.file_path ≡ merge.selected_conflict_file)

follow_merge-editor :
    (repo : RepoData) (form : MergeForm)
    → (is_empty (follow_merge repo form).editor.file_path ≡ true)
      ⊎ ((follow_merge repo form).editor.file_path
          ≡ (follow_merge repo form).selected_conflict_file)
unfolding follow_merge
follow_merge-editor repo form =
    let selected = reselect (λ path. path) repo.conflict_files form.selected_conflict_file in
    elim (Bool-cases (is_empty selected)) [
      | inl e ↦ inl (rw e refl)
      | inr e ↦ elim (Bool-cases (is_empty form.editor.file_path)) [
        | inl f ↦ inl (rw (e, f) f)
        | inr f ↦ elim (Bool-cases (eqb form.editor.file_path selected)) [
          | inl g ↦ inr (rw (e, f, g) ((eqb_iff form.editor.file_path selected).0 g))
          | inr g ↦ inl (rw (e, f, g) refl)
        ]
      ]
    ]

follow_merge-file :
    (repo : RepoData) (form : MergeForm)
    → IsSelection (λ path. path) repo.conflict_files (follow_merge repo form).selected_conflict_file
unfolding follow_merge
follow_merge-file repo form =
    reselect-IsSelection (λ path. path) repo.conflict_files form.selected_conflict_file

module _ (S : System) where
  abbrev pub Consistent : VcsGuiApp S → Type 0
  Consistent app = IsConsistent app.app_data.repo app.git_form app.merge_form app.history_form

  -- What holds of the state that a method leaves, unless it panics.
  abbrev Leaves : (VcsGuiApp S → Type 0) → Option (VcsGuiApp S × S.World) → Type 0
  Leaves P none = Unit
  Leaves P (some (app, w)) = P app

  after_diff-Consistent :
      (app : VcsGuiApp S) (text : Text)
      → Consistent (follow_after_diff S (record (follow_before_diff S app) { diff_output = text }))
  unfolding follow_after_diff follow_before_diff follow_git follow_history
  after_diff-Consistent app text =
      let repo = app.app_data.repo in
      record {
        diff_file = reselect-IsSelection StatusEntry.path repo.status_entries _;
        conflict_file = follow_merge-file repo app.merge_form;
        commit = reselect-IsSelection CommitSummary.hash repo.recent_commits _;
        editor = follow_merge-editor repo app.merge_form;
      }

  follow_data-Consistent :
      (app : VcsGuiApp S) (w : S.World) → Leaves Consistent (follow_data S app w)
  unfolding follow_data refresh_diff_output
  follow_data-Consistent app w =
      let form = (follow_before_diff S app).git_form in
      elim (Option-cases (
        load_diff_output S (trim app.repo_path) (trim form.selected_diff_file) form.show_staged_diff
          w)) [
            | inl e ↦ rw (follow_data, refresh_diff_output, follow_before_diff, e) tt
            | inr ((r, w'), e) ↦
                rw (follow_data, refresh_diff_output, follow_before_diff, e)
                  (after_diff-Consistent app (diff_text S r))
          ]

  abbrev Loaded : VcsGuiApp S → Type 0
  Loaded app = app.load_error ≡ none → Consistent app

  weaken : (o : Option (VcsGuiApp S × S.World)) → Leaves Consistent o → Leaves Loaded o
  weaken none h = tt
  weaken (some (app, w)) h = λ _. h

  failed : (app : VcsGuiApp S) (e : Text) → Loaded (record app { load_error = some e })
  failed app e = λ h. cc

  take_repo-Loaded :
      (repo : FilePath) (r : Result RepoData) (app : VcsGuiApp S) (w : S.World)
      → Leaves Loaded (take_repo S repo r app w)
  unfolding take_repo
  take_repo-Loaded repo (err e) app w = failed app e
  take_repo-Loaded repo (ok repo_data) app w =
      let app1 : VcsGuiApp S = record app {
        app_data = record (app.app_data) { repo = repo_data };
      } in
      elim (Option-cases (load_gossip S repo app1 w)) [
        | inl e ↦ rw (take_repo, e) tt
        | inr ((app', w'), e) ↦
            rw (take_repo, e) (weaken (follow_data S app' w') (follow_data-Consistent app' w'))
      ]

  refresh-Loaded : (app : VcsGuiApp S) (w : S.World) → Leaves Loaded (refresh S app w)
  unfolding refresh
  refresh-Loaded app w =
      let (instant, w1) = S.instant_now w in
      let app1 : VcsGuiApp S = record app { last_refresh = instant } in
      let repo = trim app.repo_path in
      elim (Bool-cases (is_empty repo)) [
        | inl e ↦ rw (refresh, e) (failed app1 (codes "Repository path is empty"))
        | inr e ↦ elim (Option-cases (load_repo_data S repo w1)) [
          | inl f ↦ rw (refresh, e, f) tt
          | inr ((r, w2), f) ↦ rw (refresh, e, f) (take_repo-Loaded repo r app1 w2)
        ]
      ]

  -- A refresh that ends without a load error leaves the forms consistent with the data it read:
  -- the selected file, conflict file and commit are in the data (or nothing is selected, where
  -- there is none), and the conflict editor holds no file but the selected one.
  pub refresh-Consistent :
      (app after : VcsGuiApp S) (w w' : S.World)
      → refresh S app w ≡ some (after, w')
      → after.load_error ≡ none
      → Consistent after
  refresh-Consistent app after w w' e loaded = (rw e at (refresh-Loaded app w)) loaded
