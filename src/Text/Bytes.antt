-- ===== src/Text/Bytes.antt =====
-- Byte offsets into a text, and decimal numbers.
use dqrvcs.Prelude.{
  ℕ, zero, suc, ◌+◌, ◌-◌, ◌/◌, ◌%◌, [], ◌∷◌, ltb, ◌==◌, if◌then◌else◌, Option, none, some,
}
use dqrvcs.Text.{Text, utf8_width}

abbrev pub cons_left : ℕ → Option (Text × Text) → Option (Text × Text)
cons_left c none = none
cons_left c (some (l, r)) = some (c ∷ l, r)

-- `(&s[..n], &s[n..])`, where slicing panics (`none`) inside a character or past the end.
unfoldable pub split_at_byte : ℕ → Text → Option (Text × Text)
unfolding utf8_width
split_at_byte n [] = if n == 0 then some ([], []) else none
split_at_byte n (c ∷ cs) =
    let rest = cons_left c (split_at_byte (n - utf8_width c) cs) in
    if n == 0 then some ([], c ∷ cs) else if ltb n (utf8_width c) then none else rest

-- `{}` of an unsigned number; `fuel` above the number is enough.
unfoldable pub show_from : ℕ → ℕ → Text → Text
show_from zero n acc = acc
show_from (suc fuel) n acc =
    let digits = (b'0' + n % 10) ∷ acc in
    let more = show_from fuel (n / 10) digits in if ltb n 10 then digits else more

unfoldable pub show_nat : ℕ → Text
unfolding show_from
show_nat n = show_from (suc n) n []
