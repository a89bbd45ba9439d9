-- ===== src/Args/Squash.antt =====
-- When `build_squash_args` (gui/src/main.rs) accepts what was typed.
use dqrvcs.Prelude.{Bool, true, false, not, ◌≡◌, ◌↔◌, arith, Result, ok, err, List}
use dqrvcs.Text.{Text}
use dqrvcs.Text.Trim.{is_blank}
use dqrvcs.Args.{build_squash_args, bool_eq}

abbrev pub accepts : Result (List Text) → Bool
accepts (ok args) = true
accepts (err e) = false

-- A squash is accepted exactly if there is a message and exactly one of the two selectors.
pub build_squash_args_iff :
    (last from message : Text) (allow_dirty : Bool)
    → (accepts (build_squash_args last from message allow_dirty) ≡ true)
      ↔ ((is_blank message ≡ false) × (is_blank last ≡ not (is_blank from)))
unfolding build_squash_args bool_eq
build_squash_args_iff last from message allow_dirty = ground arith
