-- ===== src/Binary.antt =====
-- Which `vcs` binary and which repository gui/src/main.rs works with: `resolve_vcs_binary`,
-- `default_vcs_binary` and `guess_repo_root`.
use dqrvcs.Prelude.{[], if◌then◌else◌, is_empty, ltb, length}
use dqrvcs.Text.{Text, codes}
use dqrvcs.Text.Trim.{trim}
use dqrvcs.Paths.{FilePath, join_path, is_absolute, components}
use dqrvcs.Act.{Act, ret, call, ◌>>=◌}
use dqrvcs.System.{System}

module _ (S : System) where
  open S use {World, exists, current_dir}

  -- The path in the repository where it exists, and `configured` where not.
  unfoldable pub in_repo_or : FilePath → Text → Act World Text
  in_repo_or repo configured = do
    let candidate = join_path repo configured
    found ← call (exists candidate)
    ret (if found then candidate else configured)

  -- The source tells paths of several components from bare names, and does the same for both.
  unfoldable pub resolve_vcs_binary : Text → FilePath → Act World Text
  unfolding in_repo_or
  resolve_vcs_binary configured repo =
      let bin = trim configured in
      if is_empty bin
      then ret []
      else if is_absolute bin
      then ret bin
      else if ltb 1 (length (components bin))
      then in_repo_or repo bin
      else in_repo_or repo bin

  unfoldable pub default_vcs_binary : FilePath → Act World FilePath
  default_vcs_binary repo_root = do
    let candidate = join_path repo_root (codes "vcs")
    found ← call (exists candidate)
    ret (if found then candidate else codes "vcs")
