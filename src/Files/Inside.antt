-- ===== src/Files/Inside.antt =====
-- What `resolve_repo_relative_path` (gui/src/main.rs) lets through.
use dqrvcs.Prelude.{
  true, false, ◌≡◌, refl, ◌⊎◌, inl, inr, is_empty, Bool-cases, Option, none, some, Result, ok, err,
  ok_or,
}
use dqrvcs.Text.{Text}
use dqrvcs.Text.Trim.{trim}
use dqrvcs.Paths.{FilePath, join_path, path_starts_with}
use dqrvcs.Act.{ret, fail, try_call, attempt, then_do, ◌>>=◌}
use dqrvcs.System.{System}
use dqrvcs.Files.{resolve_repo_relative_path}

module _ (S : System) where
  -- The repository as it is canonicalized, or as it is given where that fails, and the world then.
  abbrev pub repo_abs : FilePath → S.World → FilePath
  repo_abs repo w = ok_or (S.canonicalize repo w).0 repo

  -- The canonicalization of the path in the repository.
  abbrev pub candidate_abs : FilePath → Text → S.World → Result FilePath
  candidate_abs repo relative w =
      (S.canonicalize (join_path repo (trim relative)) (S.canonicalize repo w).1).0

  -- The path is that of a file, and below the repository.
  abbrev pub IsInside : FilePath → Text → S.World → FilePath → Type 0
  IsInside repo relative w path =
      (candidate_abs repo relative w ≡ ok path) × (path_starts_with path (repo_abs repo w) ≡ true)

  -- The path does not resolve, and is passed on as it was typed.
  abbrev pub IsUnresolved : FilePath → Text → S.World → FilePath → Type 0
  IsUnresolved repo relative w path =
      (message : Text) × (candidate_abs repo relative w ≡ err message)
      × (path ≡ join_path repo (trim relative))

  -- What holds of the path that an action returns, if it returns one.
  abbrev Returns : (FilePath → Type 0) → Option (Result FilePath × S.World) → Type 0
  Returns P none = Unit
  Returns P (some (err e, w)) = Unit
  Returns P (some (ok path, w)) = P path

  abbrev IsKnown : FilePath → Text → S.World → FilePath → Type 0
  IsKnown repo relative w path = IsInside repo relative w path ⊎ IsUnresolved repo relative w path

  resolved :
      (repo : FilePath) (relative : Text) (w : S.World) (c : Result FilePath)
      → candidate_abs repo relative w ≡ c
      → is_empty (trim relative) ≡ false
      → Returns (IsKnown repo relative w) (resolve_repo_relative_path S repo relative w)
  unfolding resolve_repo_relative_path ◌>>=◌ then_do attempt try_call ret fail
  resolved repo relative w (err e) found filled =
      rw (resolve_repo_relative_path, filled, found) (inr (e, found, refl))
  resolved repo relative w (ok path) found filled =
      elim (Bool-cases (path_starts_with path (repo_abs repo w))) [
        | inl b ↦ rw (resolve_repo_relative_path, filled, found, b) (inl (found, b))
        | inr b ↦ rw (resolve_repo_relative_path, filled, found, b) tt
      ]

  returned :
      (repo : FilePath) (relative : Text) (w : S.World)
      → Returns (IsKnown repo relative w) (resolve_repo_relative_path S repo relative w)
  unfolding resolve_repo_relative_path ◌>>=◌ then_do attempt try_call ret fail
  returned repo relative w = elim (Bool-cases (is_empty (trim relative))) [
    | inl e ↦ rw (resolve_repo_relative_path, e) tt
    | inr e ↦ resolved repo relative w (candidate_abs repo relative w) refl e
  ]

  -- A path that is let through is that of an existing file below the repository, or it does not
  -- resolve, and is the typed path joined to the repository as it stands.
  pub resolve_repo_relative_path-IsInside :
      (repo : FilePath) (relative : Text) (w w' : S.World) (path : FilePath)
      → resolve_repo_relative_path S repo relative w ≡ some (ok path, w')
      → IsInside repo relative w path ⊎ IsUnresolved repo relative w path
  resolve_repo_relative_path-IsInside repo relative w w' path e = rw e at (returned repo relative w)
