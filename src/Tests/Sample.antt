-- ===== src/Tests/Sample.antt =====
-- A small outside world: fractions for `f64`, decoded payloads, and a repository that answers git.
use dqrvcs.Prelude.{
  max, ℕ, ◌+◌, ◌*◌, ◌/◌, true, false, List, [], if◌then◌else◌, Option, none, some, ok, err, ltb,
  ◌==◌,
}
use dqrvcs.Text.{Text, codes, contains}
use dqrvcs.Conflict.{ConflictEditorState}
use dqrvcs.Consensus.{Externals, ProposalPayload, VotePayload, CertPayload}
use dqrvcs.Git.{RepoData}
use dqrvcs.Args.{hard}
use dqrvcs.System.{System, other_os, Output}
use dqrvcs.App.{VcsGuiApp, staging}

pub data Payload : Type 0 where
  proposal : ProposalPayload → Payload
  vote : VotePayload → Payload
  cert : CertPayload → Payload

abbrev pub proposal_in : Payload → Option ProposalPayload
proposal_in (proposal p) = some p
proposal_in _ = none

abbrev pub vote_in : Payload → Option VotePayload
vote_in (vote v) = some v
vote_in _ = none

abbrev pub cert_in : Payload → Option CertPayload
cert_in (cert c) = some c
cert_in _ = none

-- Fractions of natural numbers for floats, and numbers for times.
abbrev pub fractions : Externals
fractions = record {
  V = Payload;
  F = ℕ × ℕ;
  Time = ℕ;
  zero = (0, 1);
  half = (1, 2);
  is_zero = λ f. f.0 == 0;
  of_usize = λ n. (n, 1);
  mul = λ f g. (f.0 * g.0, f.1 * g.1);
  floor = λ f. (f.0 / f.1, 1);
  to_usize = λ f. if ltb (f.0 / f.1) 18446744073709551616 then f.0 / f.1 else 18446744073709551615;
  proposal_of = proposal_in;
  vote_of = vote_in;
  cert_of = cert_in;
  to_lowercase = λ t. t;
  parse_ts = λ t. none;
  after = λ s t. ltb t s;
}

abbrev pub answer : Text → Output
answer text = record { success = true; status = codes "exit status: 0"; stdout = text; stderr = [] }

-- What git prints for these arguments.
abbrev pub git_prints : List Text → Text
git_prints args =
    if contains args (codes "status")
    then codes "M  a\n"
    else if contains args (codes "symbolic-ref")
    then codes "main\n"
    else []

-- The world is the number of processes that were started.
abbrev pub tiny : System
tiny = record {
  E = fractions;
  World = ℕ;
  Instant = Unit;
  Seconds = ℕ;
  Duration = ℕ;
  os = other_os;
  overflow_checks = false;
  command_run = λ program args cwd env w. (err (codes "no such program"), w + 1);
  process_output = λ program args w. (ok (answer (git_prints args)), w + 1);
  exists = λ path w. (false, w);
  read_to_string = λ path w. (err (codes "no such file"), w);
  write = λ path text w. (ok tt, w);
  create_dir_all = λ path w. (ok tt, w);
  metadata = λ path w. (ok 0, w);
  set_permissions = λ path mode w. (ok tt, w);
  canonicalize = λ path w. (ok path, w);
  current_dir = λ w. (ok (codes "/"), w);
  env_var = λ name w. (none, w);
  temp_dir = λ w. (codes "/tmp", w);
  process_id = 1;
  timestamp_nanos = λ w. some (codes "0", w);
  instant_now = λ w. (tt, w);
  instant_minus = λ i n. some tt;
  elapsed_reaches = λ i s w. (true, w);
  seconds = λ n. n;
  from_secs_f32 = λ s. if ltb s 18446744073709551616 then some s else none;
  max_seconds = λ a b. max a b;
  utc_now = λ w. some ((λ id. 0), w);
  walk = λ m. m;
  debug_str = λ t. t;
  debug_args = λ ts. [];
  show_f64_2 = λ f. codes "0.50";
  show_i32 = λ i. [];
  sha256_hex = λ t. t;
  identity_from_str = λ t. err [];
  peers_from_str = λ t. err [];
  config_from_str = λ t. err [];
  pending_from_str = λ t. err [];
  operation_from_str = λ t. err [];
}

abbrev pub no_repo : RepoData
no_repo = record {
  branch = [];
  head = [];
  status_lines = [];
  status_entries = [];
  branch_graph = [];
  merge_in_progress = false;
  rebase_in_progress = false;
  cherry_pick_in_progress = false;
  conflict_files = [];
  recent_commits = [];
  reflog_entries = [];
}

abbrev pub no_editor : ConflictEditorState
no_editor = record { file_path = []; sections = []; parse_error = [] }

-- A client for the repository `/r`, without a binary, that refreshes after each command.
abbrev pub client : VcsGuiApp tiny
client = record {
  repo_path = codes "/r";
  vcs_binary = [];
  auto_refresh = false;
  refresh_every_sec = 5;
  middle_tab = staging;
  last_refresh = tt;
  app_data = record {
    repo = no_repo;
    gossip = record {
      node_id = [];
      peers = [];
      ops = [];
      pending_pushes = [];
      consensus_threshold = (1, 2);
      consensus_members = [];
    };
    proposals = [];
  };
  load_error = none;
  action_output = [];
  cli_input = codes "vcs rm -rf";
  diff_output = [];
  propose_form = record { reference = []; new_oid = []; old_oid = []; epoch = []; ttl_hours = [] };
  vote_form = record { proposal_id = []; vote_yes = true };
  peer_form = record { peer_url = codes "http://p" };
  git_form = record {
    commit_message = [];
    checkout_target = [];
    revert_target = [];
    squash_last = [];
    squash_from = [];
    squash_message = [];
    squash_allow_dirty = false;
    selected_diff_file = codes "gone";
    show_staged_diff = false;
  };
  merge_form = record {
    merge_target = [];
    selected_conflict_file = [];
    merge_commit_message = [];
    editor = no_editor;
  };
  history_form = record {
    selected_commit = [];
    rebase_onto = codes "main";
    rebase_autosquash = false;
    rebase_autostash = false;
    rebase_merges = false;
    rebase_todo_text = codes "pick 1\npluck 2\n";
    rebase_todo_info = [];
    cherry_pick_refs = [];
    cherry_pick_no_commit = false;
    reset_target = codes "HEAD";
    reset_mode = hard;
    confirm_hard_reset = false;
  };
  consensus_form = record { threshold = []; members_csv = [] };
  refresh_after_command = true;
}
