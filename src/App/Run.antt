-- ===== src/App/Run.antt =====
-- Running a command: `run_command_with_env`, `run_command`, `run_vcs_command`, `run_git_command`
-- and their variants.
use dqrvcs.Prelude.{
  ◌||◌, List, [], ◌++◌, if◌then◌else◌, is_empty, none, some, Result, ok, err, map, String,
}
use dqrvcs.Text.{Text, codes}
use dqrvcs.Text.Trim.{trim, is_blank}
use dqrvcs.System.{System, CommandExecution}
use dqrvcs.Binary.{resolve_vcs_binary}
use dqrvcs.App.{VcsGuiApp, Method, say}
use dqrvcs.App.Refresh.{refresh}

module _ (S : System) where
  open S use {World, command_run, show_i32}

  -- What the output panel shows for a command that ran.
  unfoldable pub describe_execution : Text → CommandExecution → Text
  describe_execution context output =
      let stdout = trim output.stdout in
      let stderr = trim output.stderr in
      if output.success
      then if is_empty stdout then context ++ codes " completed" else stdout
      else if is_empty stderr
      then elim output.status_code [
        | some code ↦ context ++ (codes " failed: exit code " ++ show_i32 code)
        | none ↦ context ++ codes " failed"
      ]
      else context ++ (codes " failed: " ++ stderr)

  unfoldable pub describe_run : Text → Result CommandExecution → Text
  unfolding describe_execution
  describe_run context (ok output) = describe_execution context output
  describe_run context (err e) = codes "failed to execute " ++ (context ++ (codes ": " ++ e))

  unfoldable pub run_command_with_env : Text → List Text → List (Text × Text) → Text → Method S
  unfolding describe_run
  run_command_with_env program args envs context app w =
      let cwd = trim app.repo_path in
      if is_blank program || is_empty cwd
      then say S (codes "Both repository path and vcs binary must be set.") app w
      else let (r, w') = command_run program args cwd envs w in
        let app' : VcsGuiApp S = record app { action_output = describe_run context r } in
        if app.refresh_after_command then refresh S app' w' else some (app', w')

  unfoldable pub run_command : Text → List Text → Text → Method S
  unfolding run_command_with_env
  run_command program args context = run_command_with_env program args [] context

  unfoldable pub run_vcs_command : List Text → Method S
  unfolding run_command
  run_vcs_command args app w =
      elim (resolve_vcs_binary S (trim app.vcs_binary) (trim app.repo_path) w) [
        | none ↦ none
        | some (ok bin, w') ↦ run_command bin args (codes "vcs command") app w'
        | some (err e, w') ↦ say S e app w'
      ]

  unfoldable pub run_git_command : List Text → Method S
  unfolding run_command
  run_git_command args = run_command (codes "git") args (codes "git command")

  unfoldable pub run_git_command_with_env : List Text → List (Text × Text) → Text → Method S
  unfolding run_command_with_env
  run_git_command_with_env args envs context = run_command_with_env (codes "git") args envs context

  -- Arguments as literals.
  abbrev pub run_vcs_command_static : List String → Method S
  run_vcs_command_static args = run_vcs_command (map codes args)

  abbrev pub run_git_command_static : List String → Method S
  run_git_command_static args = run_git_command (map codes args)

  -- `match build(..) { Ok(args) => run(&args), Err(err) => self.action_output = err }`
  abbrev pub run_built : (List Text → Method S) → Result (List Text) → Method S
  run_built run (ok args) app w = run args app w
  run_built run (err e) app w = say S e app w
