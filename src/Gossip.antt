-- ===== src/Gossip.antt =====
-- The gossip files as gui/src/main.rs reads them: `load_gossip_data`, `read_json_if_exists`,
-- `read_ops_log` and the places where the node's identity may lie.
pub mod Safe
use dqrvcs.Prelude.{
  ℕ, ◌+◌, not, List, [], ◌∷◌, ◌++◌, if◌then◌else◌, is_empty, Option, none, some, some_or, Result,
  ok, err,
}
use dqrvcs.Text.{Text, codes}
use dqrvcs.Text.Trim.{trim}
use dqrvcs.Text.Split.{lines}
use dqrvcs.Text.Bytes.{show_nat}
use dqrvcs.Paths.{FilePath, join_path, is_absolute}
use dqrvcs.Consensus.{GossipData, Operation}
use dqrvcs.Act.{Act, ret, lift, call, try_call, map_err, attempt, ◌>>=◌}
use dqrvcs.System.{
  System, windows, macos, other_os, IdentityFile, PeersFile, ConsensusConfigFile, PendingPushFile,
}
use dqrvcs.Files.{file_error, read_file}

-- `Option::map` and `unwrap_or(d)` at once.
abbrev pub field_or {ℓ κ} : {A : Type ℓ} {B : Type κ} → Option A → (A → B) → B → B
field_or none f d = d
field_or (some a) f d = f a

module _ (S : System) where
  open S use {
    E, World, os, exists, canonicalize, current_dir, env_var, sha256_hex, identity_from_str,
    peers_from_str, config_from_str, pending_from_str, operation_from_str,
  }

  abbrev pub Gossip : Type 0
  Gossip = GossipData E.V E.F

  -- `GossipData::default()`, with the threshold 0.
  unfoldable pub default_gossip : Gossip
  default_gossip = record {
    node_id = [];
    peers = [];
    ops = [];
    pending_pushes = [];
    consensus_threshold = E.zero;
    consensus_members = [];
  }

  unfoldable pub read_json_if_exists :
      {T : Type 0} → (Text → Result T) → FilePath → Act World (Option T)
  read_json_if_exists from_str path = do
    found ← call (exists path)
    if not found then ret none else do
      raw ← read_file S path
      decoded ← map_err (file_error (codes "parse") path) (lift (from_str raw))
      ret (some decoded)

  -- The loop of `read_ops_log` over the lines from `idx` on.
  unfoldable pub read_ops : FilePath → ℕ → List Text → Result (List (Operation E.V))
  read_ops path idx [] = ok []
  read_ops path idx (line ∷ rest) =
      let skip = read_ops path (idx + 1) rest in
      if is_empty (trim line) then skip else elim (operation_from_str (trim line)) [
        | ok op ↦ elim skip [ ok ops ↦ ok (op ∷ ops) | err e ↦ err e ]
        | err e ↦ err (
            codes "failed to parse "
            ++ (path ++ (codes " line " ++ (show_nat (idx + 1) ++ (codes ": " ++ e)))))
      ]

  unfoldable pub read_ops_log : FilePath → Act World (List (Operation E.V))
  unfolding read_ops
  read_ops_log path = do
    found ← call (exists path)
    if not found then ret [] else do raw ← read_file S path; lift (read_ops path 0 (lines raw))

  unfoldable pub repo_identity_key : FilePath → Act World Text
  repo_identity_key repo = do
    canonical ← attempt (try_call (canonicalize repo))
    cwd ← elim canonical [
      | ok p ↦ ret (ok p)
      | err _ ↦ if is_absolute repo then ret (ok repo) else do
        dir ← attempt (try_call current_dir)
        elim dir [ ok d ↦ ret (ok (join_path d repo)) | err _ ↦ ret (ok repo) ]
    ]
    let normalized : Text = elim cwd [ ok p ↦ p | err _ ↦ repo ]
    elim os [
      | windows ↦ ret (sha256_hex (E.to_lowercase normalized))
      | _ ↦ ret (sha256_hex normalized)
    ]

  -- The platform's directory for configuration.
  unfoldable pub config_dir : Act World (Option FilePath)
  config_dir = elim os [
    | windows ↦ call (env_var (codes "APPDATA"))
    | macos ↦ do
      home ← call (env_var (codes "HOME"))
      ret (
          field_or home
            (λ h. some (join_path (join_path h (codes "Library")) (codes "Application Support")))
            none)
    | other_os ↦ do
      xdg ← call (env_var (codes "XDG_CONFIG_HOME"))
      elim xdg [
        | some dir ↦ ret (some dir)
        | none ↦ do
          home ← call (env_var (codes "HOME"))
          ret (field_or home (λ h. some (join_path h (codes ".config"))) none)
      ]
  ]

  -- `VCS_IDENTITY_DIR`, unless it is unset or empty; else `sub` of the directory for configuration.
  unfoldable pub identity_place :
      (FilePath → FilePath) → (FilePath → FilePath) → Act World (Option FilePath)
  unfolding config_dir
  identity_place own sub = do
    override_dir ← call (env_var (codes "VCS_IDENTITY_DIR"))
    let chosen = some_or override_dir []
    if not (is_empty chosen)
        then ret (some (own chosen))
        else do dir ← config_dir; ret (field_or dir (λ d. some (sub d)) none)

  unfoldable pub resolve_config_base_dir : Act World (Option FilePath)
  unfolding identity_place
  resolve_config_base_dir =
      identity_place (λ p. p)
        (λ d.
          join_path (join_path (join_path d (codes "vcs")) (codes "gossip")) (codes "identities"))

  unfoldable pub resolve_global_identity_path : FilePath → Act World (Option FilePath)
  unfolding repo_identity_key resolve_config_base_dir
  resolve_global_identity_path repo = do
    key ← repo_identity_key repo
    base ← resolve_config_base_dir
    ret (field_or base (λ b. some (join_path (join_path b key) (codes "identity.json"))) none)

  unfoldable pub resolve_legacy_global_identity_path : Act World (Option FilePath)
  unfolding identity_place
  resolve_legacy_global_identity_path =
      identity_place (λ p. join_path p (codes "identity.json"))
        (λ d.
          join_path (join_path (join_path d (codes "vcs")) (codes "gossip"))
            (codes "identity.json"))

  -- `if identity.is_none() { if let Some(path) = .. { identity = read(path)? } }`
  unfoldable pub or_identity_at :
      Option IdentityFile → Act World (Option FilePath) → Act World (Option IdentityFile)
  unfolding read_json_if_exists
  or_identity_at (some identity) place = ret (some identity)
  or_identity_at none place = do
    path ← place
    elim path [ none ↦ ret none | some p ↦ read_json_if_exists identity_from_str p ]

  -- The record that `load_gossip_data` fills; a threshold of 0 counts as none.
  unfoldable pub gossip_of :
      Option IdentityFile
      → Option PeersFile
      → Option (ConsensusConfigFile E.F)
      → Option PendingPushFile
      → List (Operation E.V)
      → Gossip
  gossip_of identity peers config pending ops =
      let threshold = field_or config (λ c. c.threshold) E.half in
      record {
        node_id = field_or identity (λ i. i.node_id) [];
        peers = field_or peers (λ p. p.peers) [];
        ops = ops;
        pending_pushes = field_or pending (λ p. p.pushes) [];
        consensus_threshold = if E.is_zero threshold then E.half else threshold;
        consensus_members = field_or config (λ c. c.members) [];
      }

  unfoldable pub load_gossip_data : FilePath → Act World Gossip
  unfolding read_json_if_exists read_ops_log resolve_global_identity_path
      resolve_legacy_global_identity_path or_identity_at gossip_of default_gossip
  load_gossip_data repo = do
    let root = join_path (join_path repo (codes ".vcs")) (codes "gossip")
    found ← call (exists root)
    if not found then ret default_gossip else do
      own ← read_json_if_exists identity_from_str (join_path root (codes "identity.json"))
      global ← or_identity_at own (resolve_global_identity_path repo)
      identity ← or_identity_at global resolve_legacy_global_identity_path
      peers ← read_json_if_exists peers_from_str (join_path root (codes "peers.json"))
      config ← read_json_if_exists config_from_str (join_path root (codes "consensus.json"))
      pending ← read_json_if_exists pending_from_str (join_path root (codes "pending_pushes.json"))
      ops ← read_ops_log (join_path root (codes "ops.log"))
      ret (gossip_of identity peers config pending ops)
