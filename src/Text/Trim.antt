-- ===== src/Text/Trim.antt =====
-- `str::trim` and its halves.
use dqrvcs.Prelude.{
  ◌++◌, ℕ, Bool, true, false, [], ◌∷◌, ◌≡◌, refl, ap, ◌∙◌, if◌then◌else◌, is_empty, Bool-cases, inl,
  inr,
}
use dqrvcs.Text.{Text, is_whitespace}

unfoldable pub trim_start : Text → Text
trim_start [] = []
trim_start (c ∷ cs) = let rest = trim_start cs in if is_whitespace c then rest else c ∷ cs

-- `c` in front of a text whose own end is trimmed.
abbrev pub keep_end : ℕ → Text → Text
keep_end c [] = if is_whitespace c then [] else c ∷ []
keep_end c (d ∷ ds) = c ∷ d ∷ ds

unfoldable pub trim_end : Text → Text
trim_end [] = []
trim_end (c ∷ cs) = keep_end c (trim_end cs)

unfoldable pub trim : Text → Text
unfolding trim_start trim_end
trim s = trim_end (trim_start s)

-- `s.trim().is_empty()`
abbrev pub is_blank : Text → Bool
is_blank s = is_empty (trim s)

trim_end-keep_end : (c : ℕ) (s : Text) → trim_end s ≡ s → trim_end (keep_end c s) ≡ keep_end c s
unfolding trim_end
trim_end-keep_end c [] h = elim (Bool-cases (is_whitespace c)) [ inl e ↦ rw e | inr e ↦ rw (e, e) ]
trim_end-keep_end c (d ∷ ds) h = rw h

pub trim_end-trim_end : (s : Text) → trim_end (trim_end s) ≡ trim_end s
unfolding trim_end
trim_end-trim_end [] = refl
trim_end-trim_end (c ∷ cs) = trim_end-keep_end c (trim_end cs) (trim_end-trim_end cs)

-- No blank at the front.
abbrev pub StartsSolid : Text → Type 0
StartsSolid [] = Unit
StartsSolid (c ∷ cs) = is_whitespace c ≡ false

trim_start-StartsSolid : (s : Text) → StartsSolid (trim_start s)
unfolding trim_start
trim_start-StartsSolid [] = tt
trim_start-StartsSolid (c ∷ cs) = elim (Bool-cases (is_whitespace c)) [
  | inl e ↦ rw e (trim_start-StartsSolid cs)
  | inr e ↦ rw e e
]

trim_start_solid : (s : Text) → StartsSolid s → trim_start s ≡ s
unfolding trim_start
trim_start_solid [] h = refl
trim_start_solid (c ∷ cs) h = rw h

keep_end-StartsSolid : (c : ℕ) (s : Text) → is_whitespace c ≡ false → StartsSolid (keep_end c s)
keep_end-StartsSolid c [] h = rw h h
keep_end-StartsSolid c (d ∷ ds) h = h

trim_end-StartsSolid : (s : Text) → StartsSolid s → StartsSolid (trim_end s)
unfolding trim_end
trim_end-StartsSolid [] h = tt
trim_end-StartsSolid (c ∷ cs) h = keep_end-StartsSolid c (trim_end cs) h

pub trim-StartsSolid : (s : Text) → StartsSolid (trim s)
unfolding trim
trim-StartsSolid s = trim_end-StartsSolid (trim_start s) (trim_start-StartsSolid s)

-- Trimming a trimmed text changes nothing.
pub trim-trim : (s : Text) → trim (trim s) ≡ trim s
unfolding trim
trim-trim s =
    ap trim_end (trim_start_solid (trim s) (trim-StartsSolid s)) ∙ trim_end-trim_end (trim_start s)

pub trim_end-trim : (s : Text) → trim_end (trim s) ≡ trim s
unfolding trim
trim_end-trim s = trim_end-trim_end (trim_start s)

-- Behind a text whose end is solid nothing is trimmed.
pub trim_end-cons :
    (c : ℕ) (s : Text) → trim_end s ≡ s → is_empty s ≡ false → trim_end (c ∷ s) ≡ c ∷ s
unfolding trim_end
trim_end-cons c [] h e = cc
trim_end-cons c (d ∷ s) h e = ap (keep_end c) h

pub trim_start-cons_blank : (c : ℕ) (s : Text) → is_whitespace c ≡ true → trim (c ∷ s) ≡ trim s
unfolding trim
trim_start-cons_blank c s h = rw h

-- Text that begins solid is trimmed at its end only.
pub trim-trim_end : (s : Text) → StartsSolid s → trim s ≡ trim_end s
unfolding trim
trim-trim_end s h = ap trim_end (trim_start_solid s h)

pub trim_end-blank :
    (s : Text) (c : ℕ) → is_whitespace c ≡ true → trim_end (s ++ c ∷ []) ≡ trim_end s
unfolding trim_end
trim_end-blank [] c h = rw h
trim_end-blank (d ∷ s) c h = ap (keep_end d) (trim_end-blank s c h)
