-- ===== src/Act.antt =====
-- Actions on the world outside the program. An action returns a value or an error message, and
-- leaves a new world; `none` is a panic, which ends the program.
pub mod Returned
pub mod Safe
pub mod Yields
use dqrvcs.Prelude.{Option, none, some, Result, ok, err}
use dqrvcs.Text.{Text}

abbrev pub Act : Type 0 → Type 0 → Type 0
Act W A = W → Option (Result A × W)

module _ {A : Type 0} where
  abbrev pub explained : (Text → Text) → Result A → Result A
  explained f (ok a) = ok a
  explained f (err e) = err (f e)

module _ {W A : Type 0} where
  unfoldable pub ret : A → Act W A
  ret a w = some (ok a, w)

  unfoldable pub fail : Text → Act W A
  fail e w = some (err e, w)

  unfoldable pub lift : Result A → Act W A
  lift r w = some (r, w)

  -- A call that cannot fail.
  unfoldable pub call : (W → A × W) → Act W A
  call f w = let (a, w') = f w in some (ok a, w')

  -- A call that returns a `Result`.
  unfoldable pub try_call : (W → Result A × W) → Act W A
  try_call f w = some (f w)

  -- A call that cannot fail, but may panic.
  unfoldable pub call_or_panic : (W → Option (A × W)) → Act W A
  call_or_panic f w = elim (f w) [ none ↦ none | some (a, w') ↦ some (ok a, w') ]

  -- A value, or a panic.
  unfoldable pub expect : Option A → Act W A
  expect none w = none
  expect (some a) w = some (ok a, w)

  -- `.map_err(f)`
  unfoldable pub map_err : (Text → Text) → Act W A → Act W A
  map_err f m w = elim (m w) [ none ↦ none | some (r, w') ↦ some (explained f r, w') ]

  -- The result as a value, for `match`, `.ok()` and `.unwrap_or(..)`.
  unfoldable pub attempt : Act W A → Act W (Result A)
  attempt m w = elim (m w) [ none ↦ none | some (r, w') ↦ some (ok r, w') ]

module _ {W A B : Type 0} where
  unfoldable pub then_do : Result A → (A → Act W B) → Act W B
  then_do (ok a) f w = f a w
  then_do (err e) f w = some (err e, w)

  abbrev pub run_then : (A → Act W B) → Option (Result A × W) → Option (Result B × W)
  run_then f none = none
  run_then f (some (r, w)) = then_do r f w

  infixl 5 ◌>>=◌ ◌>>◌
  unfoldable pub ◌>>=◌ : Act W A → (A → Act W B) → Act W B
  ◌>>=◌ m f w = run_then f (m w)

  unfoldable pub ◌>>◌ : Act W A → Act W B → Act W B
  m >> k = m >>= λ _. k
