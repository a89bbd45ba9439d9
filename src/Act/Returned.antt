-- ===== src/Act/Returned.antt =====
-- Where the value that an action returned came from.
use dqrvcs.Prelude.{◌≡◌, refl, Option, none, some, Result, ok, err}
use dqrvcs.Text.{Text}
use dqrvcs.Act.{Act, ret, fail, lift, try_call, map_err, explained, then_do, run_then, ◌>>=◌}

module _ {W A B : Type 0} where
  run_then-ok :
      (o : Option (Result A × W)) (f : A → Act W B) (b : B) (w'' : W)
      → run_then f o ≡ some (ok b, w'')
      → (a : A) × (w' : W) × (o ≡ some (ok a, w')) × (f a w' ≡ some (ok b, w''))
  unfolding then_do
  run_then-ok none f b w'' e = absurd (cc)
  run_then-ok (some (ok a, w')) f b w'' e = (a, w', refl, e)
  run_then-ok (some (err m, w')) f b w'' e = absurd (cc)

  -- The first action returned, and the second went on from there.
  pub bind-ok :
      (m : Act W A) (f : A → Act W B) (w : W) (b : B) (w'' : W)
      → (m >>= f) w ≡ some (ok b, w'')
      → (a : A) × (w' : W) × (m w ≡ some (ok a, w')) × (f a w' ≡ some (ok b, w''))
  unfolding ◌>>=◌
  bind-ok m f w b w'' e = run_then-ok (m w) f b w'' e

module _ {W A : Type 0} where
  pub ret-ok : (a b : A) (w w' : W) → ret a w ≡ some (ok b, w') → a ≡ b
  unfolding ret
  ret-ok a b w w' e = cc

  pub lift-ok : (r : Result A) (b : A) (w w' : W) → lift r w ≡ some (ok b, w') → r ≡ ok b
  unfolding lift
  lift-ok r b w w' e = cc

  pub fail-ok : (m : Text) (b : A) (w w' : W) → fail m w ≡ some (ok b, w') → ⊥
  unfolding fail
  fail-ok m b w w' e = cc

  explained-ok :
      (f : Text → Text) (r : Result A) (w : W) (b : A) (w' : W)
      → lift (explained f r) w ≡ some (ok b, w')
      → r ≡ ok b
  unfolding lift
  explained-ok f (ok a) w b w' e = cc
  explained-ok f (err m) w b w' e = absurd (cc)

  pub map_err-try_call-ok :
      (f : Text → Text) (c : W → Result A × W) (b : A) (w w' : W)
      → map_err f (try_call c) w ≡ some (ok b, w')
      → (c w).0 ≡ ok b
  unfolding map_err try_call lift
  map_err-try_call-ok f c b w w' e = explained-ok f (c w).0 (c w).1 b w' e
