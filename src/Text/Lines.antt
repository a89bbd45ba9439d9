-- ===== src/Text/Lines.antt =====
-- Laws of `lines` and `split` on text that is put together from pieces.
use dqrvcs.Prelude.{
  ℕ, Bool, true, false, List, [], ◌∷◌, ◌++◌, ◌≡◌, refl, ap, ◌∙◌, All, is_empty, ◌==◌, map,
}
use dqrvcs.Text.{Text, codes}
use dqrvcs.Text.Split.{split_inclusive, split_by, cons_first, lines, join, strip_newline}

-- No character of `t` passes the test.
abbrev pub Free : (ℕ → Bool) → Text → Type 0
Free p t = All (λ c. p c ≡ false) t

abbrev pub is_newline : ℕ → Bool
is_newline c = c == b'\n'

split_inclusive_line :
    (l rest : Text)
    → Free is_newline l
    → split_inclusive (l ++ b'\n' ∷ rest) ≡ (l ++ b'\n' ∷ []) ∷ split_inclusive rest
unfolding split_inclusive
split_inclusive_line [] rest h = refl
split_inclusive_line (c ∷ l) rest h = rw h.0 (ap (cons_first c) (split_inclusive_line l rest h.1))

pub split_inclusive_last :
    (l : Text) → Free is_newline l → is_empty l ≡ false → split_inclusive l ≡ l ∷ []
unfolding split_inclusive
split_inclusive_last [] h e = cc
split_inclusive_last (c ∷ []) h e = rw h.0
split_inclusive_last (c ∷ d ∷ l) h e =
    rw h.0 (ap (cons_first c) (split_inclusive_last (d ∷ l) h.1 refl))

-- A line that a terminator does not shorten by more than itself.
abbrev pub EndsPlain : Text → Type 0
EndsPlain [] = Unit
EndsPlain (c ∷ []) = (c == b'\r') ≡ false
EndsPlain (c ∷ d ∷ s) = EndsPlain (d ∷ s)

strip_newline_terminated : (l : Text) → EndsPlain l → strip_newline (l ++ b'\n' ∷ []) ≡ l
strip_newline_terminated [] h = refl
strip_newline_terminated (c ∷ []) h = rw h
strip_newline_terminated (c ∷ d ∷ []) h = ap (λ t. c ∷ t) (strip_newline_terminated (d ∷ []) h)
strip_newline_terminated (c ∷ d ∷ e ∷ s) h =
    ap (λ t. c ∷ t) (strip_newline_terminated (d ∷ e ∷ s) h)

pub strip_newline_last : (l : Text) → Free is_newline l → strip_newline l ≡ l
strip_newline_last [] h = refl
strip_newline_last (c ∷ []) h = rw h.0
strip_newline_last (c ∷ d ∷ []) h = rw h.1.0
strip_newline_last (c ∷ d ∷ e ∷ s) h = ap (λ t. c ∷ t) (strip_newline_last (d ∷ e ∷ s) h.1)

-- A line of output: not empty, no newline inside, and no "\r" at its end.
pub record IsRow (l : Text) : Type 0 where
  pub filled : is_empty l ≡ false
  pub one_line : Free is_newline l
  pub ends : EndsPlain l

-- `lines` reads back rows that are joined by newlines.
pub lines-join : (ls : List Text) → All IsRow ls → lines (join (codes "\n") ls) ≡ ls
unfolding lines join codes split_inclusive
lines-join [] h = refl
lines-join (l ∷ []) h =
    ap (map strip_newline) (split_inclusive_last l h.0.one_line h.0.filled)
    ∙ ap (λ t. t ∷ []) (strip_newline_last l h.0.one_line)
lines-join (l ∷ m ∷ ls) h =
    ap (map strip_newline) (split_inclusive_line l _ h.0.one_line)
    ∙ ap (λ t. t ∷ lines (join (codes "\n") (m ∷ ls))) (strip_newline_terminated l h.0.ends)
    ∙ ap (λ t. l ∷ t) (lines-join (m ∷ ls) h.1)

pub split_by_piece :
    (p : ℕ → Bool) (t : Text) (c : ℕ) (rest : Text)
    → Free p t
    → p c ≡ true
    → split_by p (t ++ c ∷ rest) ≡ t ∷ split_by p rest
unfolding split_by
split_by_piece p [] c rest h e = rw e
split_by_piece p (d ∷ t) c rest h e = rw h.0 (ap (cons_first d) (split_by_piece p t c rest h.1 e))

pub split_by_last : (p : ℕ → Bool) (t : Text) → Free p t → split_by p t ≡ t ∷ []
unfolding split_by
split_by_last p [] h = refl
split_by_last p (d ∷ t) h = rw h.0 (ap (cons_first d) (split_by_last p t h.1))
