-- ===== src/Args.antt =====
-- The argument builders of gui/src/main.rs (`build_path_action_args` to `build_reset_args`, and
-- `ResetMode`): from the text of a form's fields to the arguments of `vcs` or `git`.
pub mod Solid
pub mod Squash
use dqrvcs.Prelude.{
  ℕ, String, Bool, true, false, not, ◌&&◌, ◌||◌, List, [], ◌∷◌, ◌++◌, ◌==◌, if◌then◌else◌, is_empty,
  retain, map, Result, ok, err, ◌>>=◌,
}
use dqrvcs.Text.{Text, codes, eqb, is_whitespace}
use dqrvcs.Text.Trim.{trim}
use dqrvcs.Text.Split.{split_by}

pub data ResetMode : Type 0 where
  soft mixed hard : ResetMode

unfoldable pub as_str : ResetMode → Text
as_str soft = codes "--soft"
as_str mixed = codes "--mixed"
as_str hard = codes "--hard"

unfoldable pub label : ResetMode → Text
label soft = codes "soft"
label mixed = codes "mixed"
label hard = codes "hard"

-- `mode == ResetMode::Hard`
abbrev pub is_hard : ResetMode → Bool
is_hard soft = false
is_hard mixed = false
is_hard hard = true

-- `if flag { args.push(text) }`
abbrev pub push_if : Bool → String → List Text → List Text
push_if true s rest = codes s ∷ rest
push_if false s rest = rest

unfoldable pub build_path_action_args : Text → Text → Text → Result (List Text)
build_path_action_args cmd path empty_path_message =
    let target = trim path in
    if is_empty target then err empty_path_message else ok (cmd ∷ target ∷ [])

unfoldable pub build_commit_args : Text → Bool → Result (List Text)
build_commit_args message all =
    let msg = trim message in
    if is_empty msg
    then err (codes "Commit message cannot be empty")
    else ok (codes "commit" ∷ push_if all "-a" (codes "-m" ∷ msg ∷ []))

unfoldable pub build_amend_args : Text → List Text
build_amend_args message =
    let msg = trim message in
    if is_empty msg
    then codes "amend" ∷ codes "--no-edit" ∷ []
    else codes "amend" ∷ codes "-m" ∷ msg ∷ []

unfoldable pub build_checkout_args : Text → Result (List Text)
build_checkout_args target =
    let target' = trim target in
    if is_empty target'
    then err (codes "Checkout target cannot be empty")
    else ok (codes "checkout" ∷ target' ∷ [])

unfoldable pub build_revert_args : Text → Bool → Result (List Text)
build_revert_args target no_commit =
    let target' = trim target in
    if is_empty target'
    then err (codes "Revert target cannot be empty")
    else ok (codes "revert" ∷ push_if no_commit "--no-commit" (target' ∷ []))

-- `use_last == use_from`
abbrev pub bool_eq : Bool → Bool → Bool
bool_eq true b = b
bool_eq false b = not b

unfoldable pub build_squash_args : Text → Text → Text → Bool → Result (List Text)
build_squash_args last from message allow_dirty =
    let msg = trim message in
    let last' = trim last in
    let from' = trim from in
    let use_last = not (is_empty last') in
    let use_from = not (is_empty from') in
    let tail = push_if allow_dirty "--allow-dirty" (codes "-m" ∷ msg ∷ []) in
    if is_empty msg
    then err (codes "Squash message cannot be empty")
    else if bool_eq use_last use_from
    then err (codes "Provide exactly one of Squash Last or Squash From")
    else if use_last
    then ok (codes "squash" ∷ codes "--last" ∷ last' ∷ tail)
    else ok (codes "squash" ∷ codes "--from" ∷ from' ∷ tail)

unfoldable pub build_consensus_config_args : Text → Text → Bool → Result (List Text)
build_consensus_config_args threshold members_csv clear_members =
    let threshold' = trim threshold in
    let members = trim members_csv in
    let tail : List Text =
      if clear_members
      then codes "--clear-members" ∷ []
      else if is_empty members
      then []
      else codes "--members" ∷ members ∷ [] in
    if is_empty threshold'
    then err (codes "Threshold cannot be empty")
    else ok (codes "consensus" ∷ codes "config" ∷ codes "--threshold" ∷ threshold' ∷ tail)

unfoldable pub build_merge_start_args : Text → Result (List Text)
build_merge_start_args target =
    let target' = trim target in
    if is_empty target'
    then err (codes "Merge target cannot be empty")
    else ok (codes "merge" ∷ target' ∷ [])

unfoldable pub build_conflict_resolution_args : Text → Text → Result (List Text)
build_conflict_resolution_args strategy path =
    let path' = trim path in
    let strategy' = trim strategy in
    if is_empty path'
    then err (codes "Select a conflict file first")
    else if not (eqb strategy' (codes "--ours")) && not (eqb strategy' (codes "--theirs"))
    then err (codes "Unknown conflict strategy")
    else ok (codes "checkout" ∷ strategy' ∷ codes "--" ∷ path' ∷ [])

unfoldable pub build_git_add_path_args : Text → Result (List Text)
build_git_add_path_args path =
    let path' = trim path in
    if is_empty path'
    then err (codes "Select a conflict file first")
    else ok (codes "add" ∷ codes "--" ∷ path' ∷ [])

unfoldable pub build_merge_commit_args : Text → Result (List Text)
build_merge_commit_args message =
    let message' = trim message in
    if is_empty message'
    then err (codes "Merge commit message cannot be empty")
    else ok (codes "commit" ∷ codes "-m" ∷ message' ∷ [])

unfoldable pub build_rebase_args : Text → Bool → Bool → Bool → Result (List Text)
build_rebase_args onto autosquash autostash rebase_merges =
    let onto' = trim onto in
    let flags =
      push_if autosquash "--autosquash"
        (push_if autostash "--autostash" (push_if rebase_merges "--rebase-merges" (onto' ∷ []))) in
    if is_empty onto'
    then err (codes "Rebase target cannot be empty")
    else ok (codes "rebase" ∷ flags)

-- `args.insert(1, value)`; `Vec::insert` panics past the end, and no list here is empty.
abbrev pub insert_1 : Text → List Text → List Text
insert_1 value [] = value ∷ []
insert_1 value (a ∷ rest) = a ∷ value ∷ rest

unfoldable pub build_interactive_rebase_args : Text → Bool → Bool → Bool → Result (List Text)
unfolding build_rebase_args
build_interactive_rebase_args onto autosquash autostash rebase_merges = do
  args ← build_rebase_args onto autosquash autostash rebase_merges
  ok (insert_1 (codes "-i") args)

unfoldable pub parse_ref_list : Text → List Text
unfolding retain split_by
parse_ref_list value =
    retain (λ token. not (is_empty token))
      (map trim (split_by (λ ch. is_whitespace ch || ch == b',') value))

unfoldable pub build_cherry_pick_args : Text → Bool → Result (List Text)
build_cherry_pick_args refs no_commit =
    let refs' = parse_ref_list refs in
    if is_empty refs'
    then err (codes "Cherry-pick requires at least one commit/ref")
    else ok (codes "cherry-pick" ∷ push_if no_commit "--no-commit" refs')

unfoldable pub build_reset_args : Text → ResetMode → Bool → Result (List Text)
build_reset_args target mode hard_reset_confirmed =
    let target' = trim target in
    if is_empty target'
    then err (codes "Reset target cannot be empty")
    else if is_hard mode && not hard_reset_confirmed
    then err (codes "Confirm hard reset before running it")
    else ok (codes "reset" ∷ as_str mode ∷ target' ∷ [])
