-- ===== src/Args/Solid.antt =====
-- The argument lists of all builders of gui/src/main.rs, and the shape of their words.
use dqrvcs.Prelude.{
  String, Bool, true, false, not, List, [], ◌∷◌, ◌≡◌, refl, arith, All, if◌then◌else◌, is_empty,
  retain, map, Result, ok, err, ◌>>=◌, ◌&&◌, ◌⊎◌, inl, inr, Bool-cases,
}
use dqrvcs.Text.{Text, codes, is_whitespace, eqb, eqb_iff}
use dqrvcs.Text.Trim.{trim, trim-trim}
use dqrvcs.Args.{
  ResetMode, soft, mixed, hard, as_str, push_if, is_hard, bool_eq, insert_1, build_path_action_args,
  build_commit_args, build_amend_args, build_checkout_args, build_revert_args, build_squash_args,
  build_consensus_config_args, build_merge_start_args, build_conflict_resolution_args,
  build_git_add_path_args, build_merge_commit_args, build_rebase_args,
  build_interactive_rebase_args, parse_ref_list, build_cherry_pick_args, build_reset_args,
}

-- An argument with something in it, and no blank at either end.
abbrev pub IsSolid : Text → Type 0
IsSolid t = (trim t ≡ t) × (is_empty t ≡ false)

trim-IsSolid : (s : Text) → is_empty (trim s) ≡ false → IsSolid (trim s)
trim-IsSolid s h = (trim-trim s, h)

-- All that an accepted form sends.
abbrev pub Sends : Result (List Text) → Type 0
Sends (ok args) = All IsSolid args
Sends (err e) = Unit

retain-IsSolid : (ts : List Text) → All IsSolid (retain (λ t. not (is_empty t)) (map trim ts))
unfolding retain
retain-IsSolid [] = tt
retain-IsSolid (t ∷ ts) = elim (Bool-cases (is_empty (trim t))) [
  | inl e ↦ rw e (retain-IsSolid ts)
  | inr e ↦ rw e (trim-IsSolid t e, retain-IsSolid ts)
]

pub parse_ref_list-IsSolid : (value : Text) → All IsSolid (parse_ref_list value)
unfolding parse_ref_list
parse_ref_list-IsSolid value = retain-IsSolid _

Sends-unless :
    (refused : Bool) (e : Text) (r : Result (List Text))
    → (refused ≡ false → Sends r)
    → Sends (if refused then err e else r)
Sends-unless true e r h = tt
Sends-unless false e r h = h refl

push_if-IsSolid :
    (b : Bool) (s : String) (rest : List Text)
    → IsSolid (codes s)
    → All IsSolid rest
    → All IsSolid (push_if b s rest)
push_if-IsSolid true s rest h hs = (h, hs)
push_if-IsSolid false s rest h hs = hs

-- The action commands of the forms, one constructor for each builder.
pub data Request : Type 0 where
  path_action : String → Text → Text → Request
  commit : Text → Bool → Request
  amend : Text → Request
  checkout : Text → Request
  revert : Text → Bool → Request
  squash : Text → Text → Text → Bool → Request
  consensus_config : Text → Text → Bool → Request
  merge_start : Text → Request
  conflict_resolution : Text → Text → Request
  git_add_path : Text → Request
  merge_commit : Text → Request
  rebase : Text → Bool → Bool → Bool → Request
  interactive_rebase : Text → Bool → Bool → Bool → Request
  cherry_pick : Text → Bool → Request
  reset : Text → ResetMode → Bool → Request

unfoldable pub build : Request → Result (List Text)
build (path_action cmd path message) = build_path_action_args (codes cmd) path message
build (commit message all) = build_commit_args message all
build (amend message) = ok (build_amend_args message)
build (checkout target) = build_checkout_args target
build (revert target no_commit) = build_revert_args target no_commit
build (squash last from message dirty) = build_squash_args last from message dirty
build (consensus_config threshold members clear) =
    build_consensus_config_args threshold members clear
build (merge_start target) = build_merge_start_args target
build (conflict_resolution strategy path) = build_conflict_resolution_args strategy path
build (git_add_path path) = build_git_add_path_args path
build (merge_commit message) = build_merge_commit_args message
build (rebase onto autosquash stash merges) = build_rebase_args onto autosquash stash merges
build (interactive_rebase onto autosquash stash merges) =
    build_interactive_rebase_args onto autosquash stash merges
build (cherry_pick refs no_commit) = build_cherry_pick_args refs no_commit
build (reset target mode confirmed) = build_reset_args target mode confirmed

-- The two commands that take a path are named by the handlers.
abbrev pub NamesCommand : Request → Type 0
NamesCommand (path_action cmd path message) = IsSolid (codes cmd)
NamesCommand _ = Unit

amend-IsSolid : (m : Text) → All IsSolid (build_amend_args m)
unfolding build_amend_args codes trim is_whitespace
amend-IsSolid m = elim (Bool-cases (is_empty (trim m))) [
  | inl e ↦ rw e ((refl, refl), ((refl, refl), tt))
  | inr e ↦ rw e ((refl, refl), ((refl, refl), (trim-IsSolid m e, tt)))
]

rebase-Sends : (onto : Text) (a b c : Bool) → Sends (build_rebase_args onto a b c)
unfolding build_rebase_args codes trim is_whitespace
rebase-Sends onto a b c = Sends-unless (is_empty (trim onto)) _ _ (λ e. (
  (refl, refl),
  push_if-IsSolid a "--autosquash" _ (refl, refl)
      (push_if-IsSolid b "--autostash" _ (refl, refl)
        (push_if-IsSolid c "--rebase-merges" _ (refl, refl) (trim-IsSolid onto e, tt))),
))

insert_1-IsSolid :
    (v : Text) (r : Result (List Text))
    → IsSolid v
    → Sends r
    → Sends (r >>= λ args. ok (insert_1 v args))
insert_1-IsSolid v (ok []) h hs = (h, hs)
insert_1-IsSolid v (ok (a ∷ args)) h hs = (hs.0, (h, hs.1))
insert_1-IsSolid v (err e) h hs = tt

interactive_rebase-Sends :
    (onto : Text) (a b c : Bool) → Sends (build_interactive_rebase_args onto a b c)
unfolding build_interactive_rebase_args codes trim is_whitespace
interactive_rebase-Sends onto a b c =
    insert_1-IsSolid (codes "-i") (build_rebase_args onto a b c) (refl, refl)
      (rebase-Sends onto a b c)

squash-Sends : (last from m : Text) (dirty : Bool) → Sends (build_squash_args last from m dirty)
unfolding build_squash_args codes trim is_whitespace
squash-Sends last from m dirty = Sends-unless (is_empty (trim m)) _ _ (λ e.
    let tail =
      push_if-IsSolid dirty "--allow-dirty" _ (refl, refl) ((refl, refl), (trim-IsSolid m e, tt)) in
    selected tail)
  where
    selected :
        All IsSolid (push_if dirty "--allow-dirty" (codes "-m" ∷ trim m ∷ []))
        → Sends (
            if bool_eq (not (is_empty (trim last))) (not (is_empty (trim from)))
            then err (codes "Provide exactly one of Squash Last or Squash From")
            else if not (is_empty (trim last))
            then ok (
                codes "squash"
                ∷ codes "--last"
                ∷ trim last
                ∷ push_if dirty "--allow-dirty" (codes "-m" ∷ trim m ∷ []))
            else ok (
                codes "squash"
                ∷ codes "--from"
                ∷ trim from
                ∷ push_if dirty "--allow-dirty" (codes "-m" ∷ trim m ∷ [])))
    selected tail = elim (Bool-cases (is_empty (trim last))) [
      | inl e ↦ elim (Bool-cases (is_empty (trim from))) [
        | inl f ↦ rw (e, f) tt
        | inr f ↦ rw (e, f) ((refl, refl), ((refl, refl), (trim-IsSolid from f, tail)))
      ]
      | inr e ↦ elim (Bool-cases (is_empty (trim from))) [
        | inl f ↦ rw (e, f) ((refl, refl), ((refl, refl), (trim-IsSolid last e, tail)))
        | inr f ↦ rw (e, f) tt
      ]
    ]

config_tail-IsSolid :
    (clear : Bool) (members : Text)
    → All IsSolid (
        if clear
        then codes "--clear-members" ∷ []
        else if is_empty (trim members)
        then []
        else codes "--members" ∷ trim members ∷ [])
unfolding codes trim is_whitespace
config_tail-IsSolid true members = ((refl, refl), tt)
config_tail-IsSolid false members = elim (Bool-cases (is_empty (trim members))) [
  | inl e ↦ rw e tt
  | inr e ↦ rw e ((refl, refl), (trim-IsSolid members e, tt))
]

as_str-IsSolid : (mode : ResetMode) → IsSolid (as_str mode)
unfolding as_str codes trim is_whitespace
as_str-IsSolid soft = (refl, refl)
as_str-IsSolid mixed = (refl, refl)
as_str-IsSolid hard = (refl, refl)

resolution-IsSolid :
    (s : Text)
    → (not (eqb s (codes "--ours")) && not (eqb s (codes "--theirs"))) ≡ false
    → (s ≡ codes "--ours") ⊎ (s ≡ codes "--theirs")
resolution-IsSolid s h = ground (arith, eqb_iff s (codes "--ours"), eqb_iff s (codes "--theirs"))

strategy-IsSolid : (s : Text) → (s ≡ codes "--ours") ⊎ (s ≡ codes "--theirs") → IsSolid s
unfolding codes trim is_whitespace
strategy-IsSolid s (inl e) = rw e (refl, refl)
strategy-IsSolid s (inr e) = rw e (refl, refl)

-- Whatever was typed, a builder of arguments either fails or returns words that are not empty and
-- have no blanks at their ends. For the builder that takes its command's name, that name must be
-- such a word.
pub build-IsSolid : (r : Request) → NamesCommand r → Sends (build r)
unfolding build build_path_action_args build_commit_args build_checkout_args build_revert_args
    build_consensus_config_args build_merge_start_args build_conflict_resolution_args
    build_git_add_path_args build_merge_commit_args build_cherry_pick_args build_reset_args codes
    trim is_whitespace
build-IsSolid (path_action cmd path message) h =
    Sends-unless (is_empty (trim path)) _ _ (λ e. (h, (trim-IsSolid path e, tt)))
build-IsSolid (commit m all) h = Sends-unless (is_empty (trim m)) _ _ (λ e.
    ((refl, refl), push_if-IsSolid all "-a" _ (refl, refl) ((refl, refl), (trim-IsSolid m e, tt))))
build-IsSolid (amend m) h = amend-IsSolid m
build-IsSolid (checkout t) h =
    Sends-unless (is_empty (trim t)) _ _ (λ e. ((refl, refl), (trim-IsSolid t e, tt)))
build-IsSolid (revert t no_commit) h = Sends-unless (is_empty (trim t)) _ _ (λ e.
    ((refl, refl), push_if-IsSolid no_commit "--no-commit" _ (refl, refl) (trim-IsSolid t e, tt)))
build-IsSolid (squash last from m dirty) h = squash-Sends last from m dirty
build-IsSolid (consensus_config t members clear) h = Sends-unless (is_empty (trim t)) _ _ (λ e. (
  (refl, refl),
  ((refl, refl), ((refl, refl), (trim-IsSolid t e, config_tail-IsSolid clear members))),
))
build-IsSolid (merge_start t) h =
    Sends-unless (is_empty (trim t)) _ _ (λ e. ((refl, refl), (trim-IsSolid t e, tt)))
build-IsSolid (conflict_resolution strategy path) h = Sends-unless (is_empty (trim path)) _ _ (λ e.
    Sends-unless
      (not (eqb (trim strategy) (codes "--ours")) && not (eqb (trim strategy) (codes "--theirs"))) _
      _
      (λ f. (
        (refl, refl),
        (
          strategy-IsSolid (trim strategy) (resolution-IsSolid (trim strategy) f),
          ((refl, refl), (trim-IsSolid path e, tt)),
        ),
      )))
build-IsSolid (git_add_path path) h =
    Sends-unless (is_empty (trim path)) _ _
      (λ e. ((refl, refl), ((refl, refl), (trim-IsSolid path e, tt))))
build-IsSolid (merge_commit m) h =
    Sends-unless (is_empty (trim m)) _ _
      (λ e. ((refl, refl), ((refl, refl), (trim-IsSolid m e, tt))))
build-IsSolid (rebase onto a b c) h = rebase-Sends onto a b c
build-IsSolid (interactive_rebase onto a b c) h = interactive_rebase-Sends onto a b c
build-IsSolid (cherry_pick refs no_commit) h =
    Sends-unless (is_empty (parse_ref_list refs)) _ _ (λ e. (
      (refl, refl),
      push_if-IsSolid no_commit "--no-commit" _ (refl, refl) (parse_ref_list-IsSolid refs),
    ))
build-IsSolid (reset t mode confirmed) h = Sends-unless (is_empty (trim t)) _ _ (λ e.
    Sends-unless (is_hard mode && not confirmed) _ _
      (λ f. ((refl, refl), (as_str-IsSolid mode, (trim-IsSolid t e, tt)))))
