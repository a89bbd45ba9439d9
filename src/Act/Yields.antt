-- ===== src/Act/Yields.antt =====
-- Actions that always return a value: no panic and no error, one rule for each way to build one.
use dqrvcs.Prelude.{
  Bool, true, false, ◌≡◌, refl, if◌then◌else◌, Option, none, some, Result, ok, err, Option-cases,
  inl, inr,
}
use dqrvcs.Text.{Text}
use dqrvcs.Act.{Act, ret, call, expect, attempt, then_do, ◌>>=◌}
use dqrvcs.Act.Safe.{Safe, panicked}

-- In every world the action returns a value, and the value has `Q`.
pub record Yields {W : Type 0} {A : Type 0} (Q : A → Type 0) (m : Act W A) : Type 0 where
  pub at : (w : W) → (a : A) × (w' : W) × (m w ≡ some (ok a, w')) × Q a

abbrev pub Any : {A : Type 0} → A → Type 0
Any a = Unit

module _ {W A : Type 0} where
  pub Yields-ret : {Q : A → Type 0} (a : A) → Q a → Yields {W = W} Q (ret a)
  unfolding ret
  Yields-ret a h = record { at = λ w. (a, w, refl, h) }

  pub Yields-call : (f : W → A × W) → Yields Any (call f)
  unfolding call
  Yields-call f = record { at = λ w. let (a, w') = f w in (a, w', refl, tt) }

  pub Yields-expect :
      {Q : A → Type 0} (o : Option A) (a : A) → o ≡ some a → Q a → Yields {W = W} Q (expect o)
  unfolding expect
  Yields-expect o a e h = record { at = λ w. (a, w, rw e refl, h) }

  pub Yields-attempt : (m : Act W A) → Safe ⊥ m → Yields Any (attempt m)
  unfolding attempt
  Yields-attempt m safe = record {
    at = λ w. elim (Option-cases (m w)) [
      | inl e ↦ absurd (panicked safe w e)
      | inr ((r, w'), e) ↦ (r, w', rw (attempt, e) refl, tt)
    ];
  }

  pub Yields-if :
      {Q : A → Type 0} (b : Bool) (m n : Act W A)
      → Yields Q m
      → Yields Q n
      → Yields Q (if b then m else n)
  Yields-if true m n hm hn = hm
  Yields-if false m n hm hn = hn

module _ {W A B : Type 0} where
  pub Yields-bind :
      {R : A → Type 0} {Q : B → Type 0} (m : Act W A) (f : A → Act W B)
      → Yields R m
      → ((a : A) → R a → Yields Q (f a))
      → Yields Q (m >>= f)
  unfolding ◌>>=◌ then_do
  Yields-bind m f hm hf = record {
    at = λ w.
        let (a, w', e, r) = hm.at w in
        let (b, w'', e', q) = (hf a r).at w' in (b, w'', rw (◌>>=◌, e) e', q);
  }

  pub Yields-option :
      {Q : B → Type 0} (o : Option A) (n : Act W B) (f : A → Act W B)
      → Yields Q n
      → ((a : A) → Yields Q (f a))
      → Yields Q (elim o [ none ↦ n | some a ↦ f a ])
  Yields-option none n f hn hf = hn
  Yields-option (some a) n f hn hf = hf a

  pub Yields-result :
      {Q : B → Type 0} (r : Result A) (f : A → Act W B) (g : Text → Act W B)
      → ((a : A) → Yields Q (f a))
      → ((e : Text) → Yields Q (g e))
      → Yields Q (elim r [ ok a ↦ f a | err e ↦ g e ])
  Yields-result (ok a) f g hf hg = hf a
  Yields-result (err e) f g hf hg = hg e
