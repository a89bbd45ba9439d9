-- ===== src/Lib.antt =====
-- The desktop client of DQRVCS, gui/src/main.rs: a window over a git repository and over the
-- gossip log of its peers. It runs `git` and `vcs`, reads files under `.vcs/gossip`, and shows what
-- they say. The state is one record, `VcsGuiApp`; each button is a method that reads the forms,
-- builds an argument list, runs a command, and refreshes.
--
-- How the files correspond to the code, from the texts up:
--   Text           `str`: white space, trimming, splitting, lines, byte offsets. A text is the list
--                  of its code points. Text/Trim, Text/Split, Text/Lines, Text/Bytes.
--   Map            `HashMap` and `HashSet` of strings, as lists without repeated keys.
--   Args           `build_*_args`, `parse_ref_list`, `ResetMode`: the arguments of each command.
--   Cli            `parse_cli_tokens` as a machine over characters, and the allowed commands.
--   Conflict       `parse_conflict_sections`, `compose_conflict_editor_output` and
--                  `apply_conflict_choice_to_all_hunks`. The source's inner loops are one function
--                  each, which recurse over the lines. Conflict/Grammar is an independent grammar.
--   Status         `parse_status_entries`, `normalize_status_path`. A cut inside a character is a
--                  panic, the value `none`.
--   Todo           `validate_rebase_todo_text`.
--   History        `parse_recent_commits`, `parse_reflog_entries`.
--   Consensus      the payloads, `ProposalView`, `compute_proposal_views`. The three maps of its
--                  first loop are the record `Tables`; `finish_view` is the body of the last loop.
--   Act, System    actions on the outside world (a result or an error, and a new world; `none` is a
--                  panic), and the record of all that comes from outside.
--                  Act/Safe and the Safe modules are about the absence of panics, Act/Yields and
--                  Git/Loads about actions that always return.
--   Paths          `PathBuf::join`, `is_absolute`, components, on Unix.
--   Git            `run_git`, `load_repo_data`, `load_diff_output` and their parts.
--   Files          repository paths, the conflict file, the rebase todo and the editor script.
--   Gossip         `load_gossip_data`, `read_json_if_exists`, `read_ops_log`, the identity's places.
--   Binary         `resolve_vcs_binary`, `default_vcs_binary`.
--   App            `VcsGuiApp` and its forms; App/Refresh is `refresh`, App/Run the runners of
--                  commands, App/Editor the conflict editor, App/Todo interactive rebase,
--                  App/Handlers and App/Collaboration the other buttons and the command line.
--                  App/Start is `VcsGuiApp::new`. App/Guards and App/Selections hold what is proved
--                  of them, App/Keeps what every method keeps of the conflict editor. Elsewhere the
--                  child modules of a component are about it: Consensus/Majority, Conflict/Sound,
--                  Files/Inside and so on.
--   Draw           the `draw_*` methods and `eframe::App::update`: Draw/Repo, Draw/Merge,
--                  Draw/History and Draw/Gossip have the panels, Draw/Hunks the line editor of a
--                  conflict, Draw/Screen the tabs and the frame, Draw/Labels `short_hash` and
--                  `non_empty`. A frame is the state and the list of its items so far; what the
--                  user does is the record `Ui`, which answers by an item's number. Draw/Keeps has
--                  one rule for each way to build a panel, Draw/Reach the states that are reached, Draw/Ends
--                  the ways a frame can panic, Draw/Idle frames in which the user does nothing.
--   Tests          runs, and the theorems on concrete data.
--
-- Numbers are natural numbers; the one sum that can pass a machine word, in `required_yes_of`, is
-- taken modulo 2^64 as in a release build, and `sums_overflow` says where a build that checks
-- overflow panics instead (`System.overflow_checks`). Loops recurse on the list that they walk, or count the
-- rounds of a range; `show_nat` prints with the number itself as its bound, which has more units than
-- digits.
--
-- Parameters, and what they stand for: processes, files, the environment and clocks (`System`); what
-- egui answers for a widget (`Ui`);
-- `f64`, the decoding of JSON, lower-casing and chrono's times (`Externals`); the order in which a
-- `HashMap` is walked (`walk`). Calls that can panic answer with an `Option`: the clocks, and
-- `Duration::from_secs_f32` for the refresh period. `Utc::now` is asked once for all proposals, also
-- where none expires; the range of the period's `DragValue` is left out, so the field may leave any
-- value. A theorem that needs more of them says so.
--
-- Not modelled: `main`, `ProcessCommandRunner`, sizes and placement of widgets, Windows paths, and
-- the Go program and gossip library beside the client.
pub mod Prelude
pub mod Text
pub mod Args
pub mod Cli
pub mod Conflict
pub mod Status
pub mod Todo
pub mod History
pub mod Map
pub mod Consensus
pub mod Act
pub mod Paths
pub mod System
pub mod Git
pub mod Files
pub mod Gossip
pub mod Binary
pub mod App
pub mod Draw
pub mod Tests
