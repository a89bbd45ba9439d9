-- ===== src/Files.antt =====
-- Files that gui/src/main.rs reads and writes: `resolve_repo_relative_path`,
-- `load_conflict_editor_state`, the todo files of an interactive rebase, and the editor script.
pub mod Inside
pub mod Safe
use dqrvcs.Prelude.{
  Bool, false, not, [], ◌∷◌, ◌++◌, ◌==◌, if◌then◌else◌, is_empty, Option, none, some, ok, err,
  ok_or,
}
use dqrvcs.Text.{Text, codes}
use dqrvcs.Text.Trim.{trim, is_blank}
use dqrvcs.Text.Bytes.{show_nat}
use dqrvcs.Paths.{FilePath, join_path, path_starts_with}
use dqrvcs.Conflict.{ConflictEditorState, parse_conflict_sections}
use dqrvcs.Act.{Act, ret, fail, lift, call, try_call, call_or_panic, map_err, attempt, ◌>>=◌, ◌>>◌}
use dqrvcs.System.{System}
use dqrvcs.Git.{run_git, resolve_git_path}

-- `ends_with('\n')`
unfoldable pub ends_with_newline : Text → Bool
ends_with_newline [] = false
ends_with_newline (c ∷ []) = c == b'\n'
ends_with_newline (c ∷ d ∷ s) = ends_with_newline (d ∷ s)

-- `format!("failed to {verb} {}: {err}", path.display())`
abbrev pub file_error : Text → FilePath → Text → Text
file_error verb path e = codes "failed to " ++ (verb ++ (codes " " ++ (path ++ (codes ": " ++ e))))

unfoldable pub sequence_editor_script : Text
sequence_editor_script =
    codes
      "#!/bin/sh\nif [ -z \"${VCS_GUI_REBASE_TODO}\" ]; then\n  echo \"VCS_GUI_REBASE_TODO is not set\" >&2\n  exit 1\nfi\nif [ -z \"$1\" ]; then\n  echo \"missing git rebase todo path\" >&2\n  exit 1\nfi\ncp \"${VCS_GUI_REBASE_TODO}\" \"$1\"\n"

unfoldable pub no_active_todo : Text
no_active_todo =
    codes "No active interactive rebase todo file found. Start an interactive rebase first."

module _ (S : System) where
  open S use {
    World, exists, read_to_string, write, create_dir_all, metadata, set_permissions, canonicalize,
    temp_dir, process_id, timestamp_nanos, os,
  }

  unfoldable pub resolve_repo_relative_path : FilePath → Text → Act World FilePath
  resolve_repo_relative_path repo relative_path =
      let relative = trim relative_path in
      if is_empty relative then fail (codes "path cannot be empty") else do
        repo_found ← attempt (try_call (canonicalize repo))
        let repo_abs = ok_or repo_found repo
        let candidate = join_path repo relative
        found ← attempt (try_call (canonicalize candidate))
        elim found [
          | ok candidate_abs ↦
              if not (path_starts_with candidate_abs repo_abs)
              then fail (codes "refusing to access path outside repository: " ++ candidate_abs)
              else ret candidate_abs
          | err _ ↦ ret candidate
        ]

  -- `fs::read_to_string(path).map_err(..)` and `fs::write(path, text).map_err(..)`
  abbrev pub read_file : FilePath → Act World Text
  read_file path = map_err (file_error (codes "read") path) (try_call (read_to_string path))

  abbrev pub write_file : FilePath → Text → Act World (Unit {0})
  write_file path text = map_err (file_error (codes "write") path) (try_call (write path text))

  unfoldable pub load_conflict_editor_state : FilePath → Text → Act World ConflictEditorState
  unfolding resolve_repo_relative_path
  load_conflict_editor_state repo relative_path =
      let relative = trim relative_path in
      if is_empty relative then fail (codes "Select a conflict file first") else do
        path ← resolve_repo_relative_path repo relative
        raw ← read_file path
        sections ← lift (parse_conflict_sections raw)
        ret (record { file_path = relative; sections = sections; parse_error = [] })

  -- One round of the loop of `find_current_rebase_todo_path`, and what follows if it finds none.
  unfoldable pub try_todo_path :
      FilePath → Text → Act World (Option FilePath) → Act World (Option FilePath)
  try_todo_path repo candidate otherwise = do
    resolved ← resolve_git_path S repo candidate
    elim resolved [
      | none ↦ otherwise
      | some path ↦ do found ← call (exists path); if found then ret (some path) else otherwise
    ]

  unfoldable pub find_current_rebase_todo_path : FilePath → Act World (Option FilePath)
  unfolding try_todo_path
  find_current_rebase_todo_path repo =
      try_todo_path repo (codes "rebase-merge/git-rebase-todo")
        (try_todo_path repo (codes "rebase-apply/git-rebase-todo") (ret none))

  unfoldable pub build_rebase_todo_text : FilePath → Text → Act World Text
  unfolding ends_with_newline
  build_rebase_todo_text repo onto =
      let target = trim onto in
      let range = target ++ codes "..HEAD" in
      if is_empty target then fail (codes "Rebase target cannot be empty") else do
        raw ←
            run_git S repo
              (codes "log" ∷ codes "--reverse" ∷ codes "--pretty=format:pick %H %s" ∷ range ∷ [])
        if is_blank raw
            then fail (codes "No commits found for range " ++ range)
            else if ends_with_newline raw
            then ret raw
            else ret (raw ++ codes "\n")

  abbrev pub active_todo_path : FilePath → Act World FilePath
  active_todo_path repo = do
    found ← find_current_rebase_todo_path repo
    elim found [ none ↦ fail no_active_todo | some path ↦ ret path ]

  unfoldable pub read_current_rebase_todo : FilePath → Act World (FilePath × Text)
  unfolding find_current_rebase_todo_path
  read_current_rebase_todo repo = do
    path ← active_todo_path repo
    raw ← read_file path
    ret (path, raw)

  unfoldable pub write_current_rebase_todo : FilePath → Text → Act World FilePath
  unfolding find_current_rebase_todo_path
  write_current_rebase_todo repo todo = do
    path ← active_todo_path repo
    write_file path todo
    ret path

  -- `timestamp_nanos` is the number of nanoseconds as it is shown, or of microseconds with three
  -- zeros.
  unfoldable pub write_temp_rebase_todo : Text → Act World FilePath
  write_temp_rebase_todo todo = do
    dir ← call temp_dir
    nanos ← call_or_panic timestamp_nanos
    let path = join_path dir (
        codes "vcs-gui-rebase-todo-"
        ++ (show_nat process_id ++ (codes "-" ++ (nanos ++ codes ".txt"))))
    write_file path todo
    ret path

  -- The permissions are set on Unix, the one kind of platform whose paths are modelled.
  unfoldable pub write_sequence_editor_script : FilePath → Act World FilePath
  unfolding sequence_editor_script
  write_sequence_editor_script repo = do
    let parent = join_path repo (codes ".vcs")
    let script_path = join_path parent (codes "gui_sequence_editor.sh")
    map_err (file_error (codes "create") parent) (try_call (create_dir_all parent))
    write_file script_path sequence_editor_script
    mode ← map_err (file_error (codes "stat") script_path) (try_call (metadata script_path))
    map_err (file_error (codes "chmod") script_path) (try_call (set_permissions script_path 0o755))
    ret script_path
