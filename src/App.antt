-- ===== src/App.antt =====
-- The state of the desktop client: `VcsGuiApp`, its forms and its data (gui/src/main.rs).
pub mod Refresh
pub mod Run
pub mod Editor
pub mod Todo
pub mod Handlers
pub mod Collaboration
pub mod Start
pub mod Guards
pub mod Selections
pub mod Keeps
use dqrvcs.Prelude.{ℕ, Bool, List, Option, none, some}
use dqrvcs.Text.{Text}
use dqrvcs.Args.{ResetMode}
use dqrvcs.Conflict.{ConflictEditorState}
use dqrvcs.Consensus.{GossipData, ProposalView}
use dqrvcs.Git.{RepoData}
use dqrvcs.System.{System}

pub data MiddleTab : Type 0 where
  staging advanced collaboration : MiddleTab

pub record ProposeForm : Type 0 where
  pub reference : Text
  pub new_oid : Text
  pub old_oid : Text
  pub epoch : Text
  pub ttl_hours : Text

pub record VoteForm : Type 0 where
  pub proposal_id : Text
  pub vote_yes : Bool

pub record PeerForm : Type 0 where
  pub peer_url : Text

pub record GitForm : Type 0 where
  pub commit_message : Text
  pub checkout_target : Text
  pub revert_target : Text
  pub squash_last : Text
  pub squash_from : Text
  pub squash_message : Text
  pub squash_allow_dirty : Bool
  pub selected_diff_file : Text
  pub show_staged_diff : Bool

pub record MergeForm : Type 0 where
  pub merge_target : Text
  pub selected_conflict_file : Text
  pub merge_commit_message : Text
  pub editor : ConflictEditorState

pub record HistoryForm : Type 0 where
  pub selected_commit : Text
  pub rebase_onto : Text
  pub rebase_autosquash : Bool
  pub rebase_autostash : Bool
  pub rebase_merges : Bool
  pub rebase_todo_text : Text
  pub rebase_todo_info : Text
  pub cherry_pick_refs : Text
  pub cherry_pick_no_commit : Bool
  pub reset_target : Text
  pub reset_mode : ResetMode
  pub confirm_hard_reset : Bool

pub record ConsensusForm : Type 0 where
  pub threshold : Text
  pub members_csv : Text

pub record AppData (S : System) : Type 0 where
  pub repo : RepoData
  pub gossip : GossipData S.E.V S.E.F
  pub proposals : List ProposalView

-- The command runner is a field of the source's record; here it is `S.command_run`.
pub record VcsGuiApp (S : System) : Type 0 where
  pub repo_path : Text
  pub vcs_binary : Text
  pub auto_refresh : Bool
  pub refresh_every_sec : S.Seconds
  pub middle_tab : MiddleTab
  pub last_refresh : S.Instant
  pub app_data : AppData S
  pub load_error : Option Text
  pub action_output : Text
  pub cli_input : Text
  pub diff_output : Text
  pub propose_form : ProposeForm
  pub vote_form : VoteForm
  pub peer_form : PeerForm
  pub git_form : GitForm
  pub merge_form : MergeForm
  pub history_form : HistoryForm
  pub consensus_form : ConsensusForm
  pub refresh_after_command : Bool

-- A method that changes the state, in a world that it changes too; `none` is a panic.
abbrev pub Method : System → Type 0
Method S = VcsGuiApp S → S.World → Option (VcsGuiApp S × S.World)

-- `self.action_output = ..` and a return.
abbrev pub say : (S : System) → Text → Method S
say S message app w = some (record app { action_output = message }, w)
