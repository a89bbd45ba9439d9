-- ===== src/Gossip/Safe.antt =====
-- Loading the gossip data and finding the binary end without a panic.
use dqrvcs.Prelude.{Option, none, some, Result}
use dqrvcs.Text.{Text}
use dqrvcs.Paths.{FilePath, is_absolute}
use dqrvcs.Act.{Act}
use dqrvcs.Act.Safe.{Safe, safe_rules, Safe-bind, Safe-if, Safe-option, Safe-result}
use dqrvcs.System.{System, Os, windows, macos, other_os}
use dqrvcs.Binary.{in_repo_or, resolve_vcs_binary}
use dqrvcs.Gossip.{
  read_json_if_exists, read_ops_log, repo_identity_key, config_dir, identity_place,
  resolve_config_base_dir, resolve_global_identity_path, resolve_legacy_global_identity_path,
  or_identity_at, load_gossip_data, IdentityFile,
}

module _ (S : System) {C : Type 0} where
  Safe-in_repo_or : (repo : FilePath) (configured : Text) → Safe C (in_repo_or S repo configured)
  unfolding in_repo_or
  Safe-in_repo_or repo configured = search safe_rules

  pub Safe-resolve_vcs_binary :
      (configured : Text) (repo : FilePath) → Safe C (resolve_vcs_binary S configured repo)
  unfolding resolve_vcs_binary
  Safe-resolve_vcs_binary configured repo = search (safe_rules, Safe-in_repo_or) depth 9

  Safe-read_json_if_exists :
      {T : Type 0} (from_str : Text → Result T) (path : FilePath)
      → Safe C (read_json_if_exists S from_str path)
  unfolding read_json_if_exists
  Safe-read_json_if_exists from_str path = search safe_rules depth 12

  Safe-read_ops_log : (path : FilePath) → Safe C (read_ops_log S path)
  unfolding read_ops_log
  Safe-read_ops_log path = search safe_rules depth 12

  Safe-os :
      {A : Type 0} (o : Os) (l m n : Act S.World A)
      → Safe C l
      → Safe C m
      → Safe C n
      → Safe C (elim o [ windows ↦ l | macos ↦ m | other_os ↦ n ])
  Safe-os windows l m n hl hm hn = hl
  Safe-os macos l m n hl hm hn = hm
  Safe-os other_os l m n hl hm hn = hn

  Safe-repo_identity_key : (repo : FilePath) → Safe C (repo_identity_key S repo)
  unfolding repo_identity_key
  Safe-repo_identity_key repo = Safe-bind _ _ (search safe_rules) (λ canonical.
      Safe-bind _ _
        (Safe-result canonical _ _ (λ p. search safe_rules)
          (λ e. Safe-if (is_absolute repo) _ _ (search safe_rules) (
            Safe-bind _ _ (search safe_rules)
              (λ dir. Safe-result dir _ _ (λ d. search safe_rules) (λ e'. search safe_rules)))))
        (λ cwd. Safe-os S.os _ _ _ (search safe_rules) (search safe_rules) (search safe_rules)))

  Safe-config_dir : Safe C (config_dir S)
  unfolding config_dir
  Safe-config_dir = Safe-os S.os _ _ _ (search safe_rules) (search safe_rules) (
      Safe-bind _ _ (search safe_rules)
        (λ xdg. Safe-option xdg _ _ (search safe_rules) (λ dir. search safe_rules)))

  Safe-identity_place : (own sub : FilePath → FilePath) → Safe C (identity_place S own sub)
  unfolding identity_place
  Safe-identity_place own sub = search (safe_rules, Safe-config_dir) depth 12

  Safe-resolve_global_identity_path :
      (repo : FilePath) → Safe C (resolve_global_identity_path S repo)
  unfolding resolve_global_identity_path resolve_config_base_dir
  Safe-resolve_global_identity_path repo =
      search (safe_rules, Safe-repo_identity_key, Safe-identity_place) depth 12

  Safe-resolve_legacy_global_identity_path : Safe C (resolve_legacy_global_identity_path S)
  unfolding resolve_legacy_global_identity_path
  Safe-resolve_legacy_global_identity_path = search Safe-identity_place

  Safe-or_identity_at :
      (identity : Option IdentityFile) (place : Act S.World (Option FilePath))
      → Safe C place
      → Safe C (or_identity_at S identity place)
  unfolding or_identity_at
  Safe-or_identity_at (some identity) place h = search safe_rules
  Safe-or_identity_at none place h =
      Safe-bind _ _ h
        (λ path. Safe-option path _ _ (search safe_rules) (λ p. Safe-read_json_if_exists _ p))

  pub Safe-load_gossip_data : (repo : FilePath) → Safe C (load_gossip_data S repo)
  unfolding load_gossip_data
  Safe-load_gossip_data repo =
      search
        (
          safe_rules, Safe-read_json_if_exists, Safe-or_identity_at, Safe-read_ops_log,
          Safe-resolve_global_identity_path, Safe-resolve_legacy_global_identity_path,
        )
        depth 30 fits 9000
