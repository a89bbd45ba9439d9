-- ===== src/Text/Decimal.antt =====
-- Decimal digits, and the number that they stand for.
use dqrvcs.Prelude.{
  ℕ, zero, suc, ◌+◌, ◌-◌, ◌*◌, ◌/◌, ◌%◌, ◌<◌, ◌≤◌, ltb, [], ◌∷◌, ◌≡◌, ap, ◌∙◌, arith, Bool-cases,
  inl, inr,
}
use dqrvcs.Text.{Text}
use dqrvcs.Text.Bytes.{show_from, show_nat}

-- The number whose digits these are, behind the digits of `v`.
abbrev value_from : ℕ → Text → ℕ
value_from v [] = v
value_from v (c ∷ cs) = value_from (10 * v + (c - b'0')) cs

value_from-show_from :
    (fuel n : ℕ) (acc : Text) → n < fuel → value_from 0 (show_from fuel n acc) ≡ value_from n acc
unfolding show_from
value_from-show_from zero n acc h = omega arith
value_from-show_from (suc fuel) n acc h = elim (Bool-cases (ltb n 10)) [
  | inl e ↦
      let small : n < 10 = ground arith in
      let same : 10 * 0 + ((b'0' + n % 10) - b'0') ≡ n = omega arith in
      rw e (ap (λ v. value_from v acc) same)
  | inr e ↦
      let big : 10 ≤ n = ground arith in
      let same : 10 * (n / 10) + ((b'0' + n % 10) - b'0') ≡ n = omega arith in
      rw e (
        value_from-show_from fuel (n / 10) ((b'0' + n % 10) ∷ acc) (omega arith)
        ∙ ap (λ v. value_from v acc) same)
]

-- The digits that are shown for a number stand for it.
pub value_from-show_nat : (n : ℕ) → value_from 0 (show_nat n) ≡ n
unfolding show_nat
value_from-show_nat n = value_from-show_from (suc n) n [] (omega arith)
