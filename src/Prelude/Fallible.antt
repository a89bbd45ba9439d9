-- ===== src/Prelude/Fallible.antt =====
-- `Result<T, String>`: a value, or the message of an error. Texts are lists of code points.
use Prim.Native.Nat.{ℕ}
use mathlib.Core.Path.{◌≡◌, refl}
use mathlib.Core.Option.{Option, none, some}
use mathlib.Core.Logic.{◌⊎◌, inl, inr}
use mathlib.Core.List.{List}

pub data Result {ℓ} (A : Type ℓ) : Type ℓ where
  ok : A → Result A
  err : List ℕ → Result A

-- `?`, as the bind of a `do` block.
infixl 5 ◌>>=◌
abbrev pub ◌>>=◌ {ℓ κ} : {A : Type ℓ} {B : Type κ} → Result A → (A → Result B) → Result B
ok a >>= f = f a
err e >>= f = err e

module _ {ℓ} {A : Type ℓ} where
  -- `.unwrap_or(d)` of a result.
  abbrev pub ok_or : Result A → A → A
  ok_or (ok a) d = a
  ok_or (err e) d = d

  -- `.ok()`
  abbrev pub to_option : Result A → Option A
  to_option (ok a) = some a
  to_option (err e) = none

  -- `.unwrap_or(d)` of an option.
  abbrev pub some_or : Option A → A → A
  some_or none d = d
  some_or (some a) d = a

  pub Option-cases : (o : Option A) → (o ≡ none) ⊎ ((a : A) × (o ≡ some a))
  Option-cases none = inl refl
  Option-cases (some a) = inr (a, refl)
