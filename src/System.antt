-- ===== src/System.antt =====
-- What gui/src/main.rs takes from outside: processes (the `CommandRunner` trait and
-- `std::process`), files, the environment, clocks, the serde_json decoders, SHA-256 and the
-- formatting of floats and debug texts. All of it is a parameter of the model. An outer `Option` is
-- a panic of that code.
use dqrvcs.Prelude.{ℕ, ℤ, Bool, List, Option, Result}
use dqrvcs.Text.{Text}
use dqrvcs.Paths.{FilePath}
use dqrvcs.Map.{Map}
use dqrvcs.Consensus.{Externals, Operation, PendingPush, ProposalView}

pub record CommandExecution : Type 0 where
  pub success : Bool
  pub status_code : Option ℤ
  pub stdout : Text
  pub stderr : Text

-- `std::process::Output`, its bytes decoded and its status as it is displayed.
pub record Output : Type 0 where
  pub success : Bool
  pub status : Text
  pub stdout : Text
  pub stderr : Text

pub record IdentityFile : Type 0 where
  pub node_id : Text

pub record PeersFile : Type 0 where
  pub peers : List Text

pub record ConsensusConfigFile (F : Type 0) : Type 0 where
  pub threshold : F
  pub members : List Text

pub record PendingPushFile : Type 0 where
  pub pushes : List PendingPush

-- `cfg!(target_os)`
pub data Os : Type 0 where
  windows macos other_os : Os

pub record System : Type 1 where
  pub E : Externals
  pub World : Type 0
  pub Instant : Type 0
  pub Seconds : Type 0
  pub Duration : Type 0
  pub os : Os
  -- `cfg!(overflow_checks)`: on in the debug build that `cargo run` makes, off in a release build.
  pub overflow_checks : Bool
  pub command_run :
      Text → List Text → Text → List (Text × Text) → World → Result CommandExecution × World
  pub process_output : Text → List Text → World → Result Output × World
  pub exists : FilePath → World → Bool × World
  pub read_to_string : FilePath → World → Result Text × World
  pub write : FilePath → Text → World → Result (Unit {0}) × World
  pub create_dir_all : FilePath → World → Result (Unit {0}) × World
  pub metadata : FilePath → World → Result ℕ × World
  pub set_permissions : FilePath → ℕ → World → Result (Unit {0}) × World
  pub canonicalize : FilePath → World → Result FilePath × World
  pub current_dir : World → Result FilePath × World
  pub env_var : Text → World → Option Text × World
  pub temp_dir : World → FilePath × World
  pub process_id : ℕ
  -- `Utc::now().timestamp_nanos_opt()`, or the microseconds times 1000; a panic where the clock or
  -- that product panics.
  pub timestamp_nanos : World → Option (Text × World)
  pub instant_now : World → Instant × World
  pub instant_minus : Instant → ℕ → Option Instant
  -- `Duration::from_secs_f32`, which panics for seconds that are not finite or too many.
  pub from_secs_f32 : Seconds → Option Duration
  pub elapsed_reaches : Instant → Duration → World → Bool × World
  pub seconds : ℕ → Seconds
  pub max_seconds : Seconds → Seconds → Seconds
  -- `Utc::now()` for each proposal, which panics where the clock is before 1970.
  pub utc_now : World → Option ((Text → E.Time) × World)
  pub walk : Map ProposalView → Map ProposalView
  pub debug_str : Text → Text
  pub debug_args : List Text → Text
  pub show_f64_2 : E.F → Text
  pub show_i32 : ℤ → Text
  pub sha256_hex : Text → Text
  pub identity_from_str : Text → Result IdentityFile
  pub peers_from_str : Text → Result PeersFile
  pub config_from_str : Text → Result (ConsensusConfigFile E.F)
  pub pending_from_str : Text → Result PendingPushFile
  pub operation_from_str : Text → Result (Operation E.V)
