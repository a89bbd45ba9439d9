-- ===== src/Cli/Words.antt =====
-- The tokenizer on text with no quotes, and the shape of what it returns.
use dqrvcs.Prelude.{
  ℕ, Bool, false, not, ◌||◌, List, [], ◌∷◌, ◌++◌, ◌≡◌, refl, ◌∙◌, ap, arith, ◌==◌, if◌then◌else◌,
  is_empty, retain, All, All-append, ok, append-nil, append_assoc, Bool-cases, inl, inr,
}
use dqrvcs.Text.{Text, is_whitespace}
use dqrvcs.Text.Split.{cons_first, split_by, split_whitespace}
use dqrvcs.Cli.{Lexer, flush, step, scan, initial, finish, parse_cli_tokens}

abbrev pub is_special : ℕ → Bool
is_special c = c == b'\\' || c == b'\'' || c == b'"'

-- No quote and no backslash.
abbrev pub IsPlain : Text → Type 0
IsPlain s = All (λ c. is_special c ≡ false) s

abbrev closed : List Text → Text → Lexer
closed ts t = record {
  tokens = ts;
  current = t;
  in_single = false;
  in_double = false;
  escape = false;
}

abbrev full : List Text → List Text
full ts = retain (λ t. not (is_empty t)) ts

abbrev prefix : Text → List Text → List Text
prefix t [] = t ∷ []
prefix t (u ∷ us) = (t ++ u) ∷ us

step_plain :
    (ts : List Text) (t : Text) (c : ℕ)
    → is_special c ≡ false
    → step (closed ts t) c
      ≡ (if is_whitespace c then flush (closed ts t) else closed ts (t ++ c ∷ []))
unfolding step
step_plain ts t c h = ground arith

flush-closed : (ts : List Text) (t : Text) → flush (closed ts t) ≡ closed (ts ++ full (t ∷ [])) []
unfolding flush retain
flush-closed ts [] = rw append-nil
flush-closed ts (c ∷ t) = refl

full-prefix_nil : (us : List Text) → full (prefix [] us) ≡ full us
unfolding retain
full-prefix_nil [] = refl
full-prefix_nil (u ∷ us) = refl

prefix-cons_first :
    (t : Text) (c : ℕ) (us : List Text) → prefix t (cons_first c us) ≡ prefix (t ++ c ∷ []) us
prefix-cons_first t c [] = refl
prefix-cons_first t c (u ∷ us) = rw append_assoc

full-cons : (t : Text) (us : List Text) → full (t ∷ []) ++ full us ≡ full ((t ++ []) ∷ us)
unfolding retain
full-cons [] us = refl
full-cons (c ∷ t) us = rw append-nil

finish-closed :
    (ts : List Text) (t : Text) → finish (closed ts t) ≡ ok (ts ++ full ((t ++ []) ∷ []))
unfolding finish
finish-closed ts t = rw (append-nil, flush-closed)

blank-step :
    (ts : List Text) (t : Text) (us : List Text)
    → (ts ++ full (t ∷ [])) ++ full (prefix [] us) ≡ ts ++ full ((t ++ []) ∷ us)
blank-step ts t us = rw (full-prefix_nil, append_assoc, full-cons)

scan_plain :
    (s : Text) (ts : List Text) (t : Text)
    → IsPlain s
    → finish (scan (closed ts t) s) ≡ ok (ts ++ full (prefix t (split_by is_whitespace s)))
unfolding scan split_by
scan_plain [] ts t h = finish-closed ts t
scan_plain (c ∷ cs) ts t h = elim (Bool-cases (is_whitespace c)) [
  | inl e ↦
      ap (λ l. finish (scan l cs)) (step_plain ts t c h.0 ∙ rw e (flush-closed ts t))
      ∙ scan_plain cs (ts ++ full (t ∷ [])) [] h.1
      ∙ rw e (ap ok (blank-step ts t (split_by is_whitespace cs)))
  | inr e ↦
      ap (λ l. finish (scan l cs)) (step_plain ts t c h.0 ∙ rw e refl)
      ∙ scan_plain cs ts (t ++ c ∷ []) h.1
      ∙ rw (e, prefix-cons_first)
]

-- Text with no quotes and no backslashes is split at its blanks.
pub parse_cli_tokens-split_whitespace :
    (s : Text) → IsPlain s → parse_cli_tokens s ≡ ok (split_whitespace s)
unfolding parse_cli_tokens split_whitespace
parse_cli_tokens-split_whitespace s h =
    scan_plain s [] [] h ∙ ap ok (full-prefix_nil (split_by is_whitespace s))

abbrev pub IsFilled : Text → Type 0
IsFilled t = is_empty t ≡ false

flush-IsFilled : (l : Lexer) → All IsFilled l.tokens → All IsFilled (flush l).tokens
unfolding flush
flush-IsFilled l h = elim (Bool-cases (is_empty l.current)) [
  | inl e ↦ rw e h
  | inr e ↦ rw e (All-append IsFilled l.tokens _ h (e, tt))
]

step-IsFilled : (l : Lexer) (c : ℕ) → All IsFilled l.tokens → All IsFilled (step l c).tokens
unfolding step
step-IsFilled l c h = ground (arith, flush-IsFilled l h)

scan-IsFilled : (s : Text) (l : Lexer) → All IsFilled l.tokens → All IsFilled (scan l s).tokens
unfolding scan
scan-IsFilled [] l h = h
scan-IsFilled (c ∷ s) l h = scan-IsFilled s (step l c) (step-IsFilled l c h)

finish-IsFilled :
    (l : Lexer) (ts : List Text) → All IsFilled l.tokens → finish l ≡ ok ts → All IsFilled ts
unfolding finish
finish-IsFilled l ts h e = ground (arith, flush-IsFilled l h)

-- No token that the tokenizer returns is empty.
pub parse_cli_tokens-IsFilled :
    (s : Text) (ts : List Text) → parse_cli_tokens s ≡ ok ts → All IsFilled ts
unfolding parse_cli_tokens
parse_cli_tokens-IsFilled s ts e =
    finish-IsFilled (scan initial s) ts (scan-IsFilled s initial tt) e
