-- ===== src/Act/Safe.antt =====
-- Actions that end without a panic, one rule for each way to build an action.
use dqrvcs.Prelude.{
  Bool, true, false, ◌≡◌, refl, ap, if◌then◌else◌, Option, none, some, Result, ok, err,
  Option-cases, inl, inr,
}
use dqrvcs.Text.{Text}
use dqrvcs.Act.{
  Act, ret, fail, lift, call, try_call, call_or_panic, expect, map_err, attempt, then_do, run_then,
  ◌>>=◌, ◌>>◌,
}

-- There is a result, or `C` holds.
abbrev pub Unless : {X : Type 0} → Type 0 → Option X → Type 0
Unless C none = C
Unless C (some x) = Unit

-- Where the action panics, `C` holds: with `⊥` for `C`, it never panics.
pub record Safe {W : Type 0} {A : Type 0} (C : Type 0) (m : Act W A) : Type 0 where
  pub at : (w : W) → Unless C (m w)

module _ {W A : Type 0} {C : Type 0} where
  pub Safe-ret : (a : A) → Safe {W = W} C (ret a)
  unfolding ret
  Safe-ret a = record { at = λ w. tt }

  pub Safe-fail : (e : Text) → Safe {W = W} {A = A} C (fail e)
  unfolding fail
  Safe-fail e = record { at = λ w. tt }

  pub Safe-lift : (r : Result A) → Safe {W = W} C (lift r)
  unfolding lift
  Safe-lift r = record { at = λ w. tt }

  pub Safe-call : (f : W → A × W) → Safe C (call f)
  unfolding call
  Safe-call f = record { at = λ w. tt }

  pub Safe-try_call : (f : W → Result A × W) → Safe C (try_call f)
  unfolding try_call
  Safe-try_call f = record { at = λ w. tt }

  pub Safe-call_or_panic :
      (f : W → Option (A × W)) → ((w : W) → Unless C (f w)) → Safe C (call_or_panic f)
  unfolding call_or_panic
  Safe-call_or_panic f h = record {
    at = λ w. elim (Option-cases (f w)) [
      | inl e ↦ rw (Unless, call_or_panic, e) (rw e at (h w))
      | inr (r, e) ↦ rw (Unless, call_or_panic, e) tt
    ];
  }

  pub Safe-expect : (o : Option A) → Unless C o → Safe {W = W} C (expect o)
  unfolding expect
  Safe-expect none h = record { at = λ w. h }
  Safe-expect (some a) h = record { at = λ w. tt }

  pub Safe-map_err : (f : Text → Text) (m : Act W A) → Safe C m → Safe C (map_err f m)
  unfolding map_err
  Safe-map_err f m h = record {
    at = λ w. elim (Option-cases (m w)) [
      | inl e ↦ rw (Unless, map_err, e) (rw e at (h.at w))
      | inr (r, e) ↦ rw (Unless, map_err, e) tt
    ];
  }

  pub Safe-attempt : (m : Act W A) → Safe C m → Safe C (attempt m)
  unfolding attempt
  Safe-attempt m h = record {
    at = λ w. elim (Option-cases (m w)) [
      | inl e ↦ rw (Unless, attempt, e) (rw e at (h.at w))
      | inr (r, e) ↦ rw (Unless, attempt, e) tt
    ];
  }

  pub Safe-if : (b : Bool) (m n : Act W A) → Safe C m → Safe C n → Safe C (if b then m else n)
  Safe-if true m n hm hn = hm
  Safe-if false m n hm hn = hn

module _ {W A B : Type 0} {C : Type 0} where
  then_do-Safe :
      (r : Result A) (f : A → Act W B) (w : W)
      → ((a : A) → r ≡ ok a → Safe C (f a))
      → Unless C (then_do r f w)
  unfolding then_do
  then_do-Safe (ok a) f w h = (h a refl).at w
  then_do-Safe (err e) f w h = tt

  run_then-Safe :
      (o : Option (Result A × W)) (f : A → Act W B)
      → Unless C o
      → ((a : A) → (w : W) → o ≡ some (ok a, w) → Safe C (f a))
      → Unless C (run_then f o)
  run_then-Safe none f c h = c
  run_then-Safe (some (r, w)) f c h = then_do-Safe r f w (λ a e. h a w (ap (λ s. some (s, w)) e))

  -- The rest may use where the value came from.
  pub Safe-bind_value :
      (m : Act W A) (f : A → Act W B)
      → Safe C m
      → ((a : A) → (w : W) → (w' : W) → m w ≡ some (ok a, w') → Safe C (f a))
      → Safe C (m >>= f)
  unfolding ◌>>=◌
  Safe-bind_value m f hm hf = record {
    at = λ w. run_then-Safe (m w) f (hm.at w) (λ a w' e. hf a w w' e);
  }

  pub Safe-bind :
      (m : Act W A) (f : A → Act W B) → Safe C m → ((a : A) → Safe C (f a)) → Safe C (m >>= f)
  Safe-bind m f hm hf = Safe-bind_value m f hm (λ a w w' e. hf a)

  pub Safe-then : (m : Act W A) (k : Act W B) → Safe C m → Safe C k → Safe C (m >> k)
  unfolding ◌>>◌
  Safe-then m k hm hk = Safe-bind m (λ _. k) hm (λ a. hk)

module _ {W A B : Type 0} {C : Type 0} where
  -- A `match` on an option, and on a result.
  pub Safe-option :
      (o : Option A) (n : Act W B) (f : A → Act W B)
      → Safe C n
      → ((a : A) → Safe C (f a))
      → Safe C (elim o [ none ↦ n | some a ↦ f a ])
  Safe-option none n f hn hf = hn
  Safe-option (some a) n f hn hf = hf a

  pub Safe-result :
      (r : Result A) (f : A → Act W B) (g : Text → Act W B)
      → ((a : A) → Safe C (f a))
      → ((e : Text) → Safe C (g e))
      → Safe C (elim r [ ok a ↦ f a | err e ↦ g e ])
  Safe-result (ok a) f g hf hg = hf a
  Safe-result (err e) f g hf hg = hg e

module _ {W A : Type 0} {C : Type 0} where
  pub panicked : {m : Act W A} → Safe C m → (w : W) → m w ≡ none → C
  panicked s w e = rw e at (s.at w)

pub ruleset safe_rules = (
  Safe-ret, Safe-fail, Safe-lift, Safe-call, Safe-try_call, Safe-map_err, Safe-attempt, Safe-if,
  Safe-bind, Safe-then,
)
