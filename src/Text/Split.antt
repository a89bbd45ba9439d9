-- ===== src/Text/Split.antt =====
-- `split`, `split_inclusive`, `split_whitespace`, `lines` and `join`.
use dqrvcs.Prelude.{
  ℕ, zero, suc, ◌-◌, Bool, not, List, [], ◌∷◌, ◌++◌, ◌==◌, if◌then◌else◌, is_empty, retain, map,
  length,
}
use dqrvcs.Text.{Text, is_whitespace, starts_with}

-- `c` in front of the first piece.
abbrev pub cons_first : ℕ → List Text → List Text
cons_first c [] = (c ∷ []) ∷ []
cons_first c (l ∷ ls) = (c ∷ l) ∷ ls

-- `split_inclusive('\n')`: each piece keeps its newline.
unfoldable pub split_inclusive : Text → List Text
split_inclusive [] = []
split_inclusive (c ∷ cs) =
    let rest = split_inclusive cs in if c == b'\n' then (c ∷ []) ∷ rest else cons_first c rest

-- `split(p)`: one piece more than there are separators.
unfoldable pub split_by : (ℕ → Bool) → Text → List Text
split_by p [] = [] ∷ []
split_by p (c ∷ cs) = let rest = split_by p cs in if p c then [] ∷ rest else cons_first c rest

-- `split(pat)` for a text `pat`; `skip` counts the characters of a match that is being passed.
unfoldable pub split_str : Text → ℕ → Text → List Text
split_str pat skip [] = [] ∷ []
split_str pat (suc k) (c ∷ cs) = split_str pat k cs
split_str pat zero (c ∷ cs) =
    let passed = split_str pat (length pat - 1) cs in
    let kept = cons_first c (split_str pat zero cs) in
    if starts_with (c ∷ cs) pat then [] ∷ passed else kept

unfoldable pub split_whitespace : Text → List Text
unfolding split_by retain
split_whitespace s = retain (λ t. not (is_empty t)) (split_by is_whitespace s)

-- A line without its "\n" or "\r\n"; a bare "\r" at the end of the last line stays.
abbrev pub strip_newline : Text → Text
strip_newline [] = []
strip_newline (c ∷ []) = if c == b'\n' then [] else c ∷ []
strip_newline (c ∷ d ∷ []) = if d == b'\n' then (if c == b'\r' then [] else c ∷ []) else c ∷ d ∷ []
strip_newline (c ∷ d ∷ e ∷ s) = c ∷ strip_newline (d ∷ e ∷ s)

unfoldable pub lines : Text → List Text
unfolding split_inclusive
lines s = map strip_newline (split_inclusive s)

-- `concat()` and `join(sep)`.
unfoldable pub concat : List Text → Text
concat [] = []
concat (t ∷ ts) = t ++ concat ts

unfoldable pub join : Text → List Text → Text
join sep [] = []
join sep (t ∷ []) = t
join sep (t ∷ u ∷ ts) = t ++ (sep ++ join sep (u ∷ ts))
