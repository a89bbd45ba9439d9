-- ===== src/Draw/Hunks/Put.antt =====
-- Lists with one place set, as the line editor of `draw_merge_panel` (gui/src/main.rs) sets the
-- choice of a line.
use dqrvcs.Prelude.{
  ℕ, zero, suc, ◌≤◌, ◌<◌, max, List, [], ◌∷◌, ◌++◌, ◌≡◌, ◌≢◌, refl, ap, inl, inr, arith, length,
  get_elem?, length-append, none, some, some_or, if◌then◌else◌, ltb, leb, Bool-cases,
}
use dqrvcs.Conflict.{ConflictLineSource, ours, theirs}
use dqrvcs.Draw.Hunks.{set_at, push_missing}

module _ {ℓ} {A : Type ℓ} where
  pub get_elem?-lt : (i : ℕ) (xs : List A) → i < length xs → (a : A) × (get_elem? xs i ≡ some a)
  get_elem?-lt i [] h = absurd (omega arith)
  get_elem?-lt zero (x ∷ xs) h = (x, refl)
  get_elem?-lt (suc i) (x ∷ xs) h = get_elem?-lt i xs (omega arith)

  get_elem?-ge : (i : ℕ) (xs : List A) → length xs ≤ i → get_elem? xs i ≡ none
  get_elem?-ge i [] h = refl
  get_elem?-ge zero (x ∷ xs) h = absurd (omega arith)
  get_elem?-ge (suc i) (x ∷ xs) h = get_elem?-ge i xs (omega arith)

  -- `ys` has `a` at the place `i`, and is `xs` elsewhere.
  pub record IsPut (i : ℕ) (a : A) (xs ys : List A) : Type ℓ where
    pub at : get_elem? ys i ≡ some a
    pub others : (k : ℕ) → k ≢ i → get_elem? ys k ≡ get_elem? xs k

  set_at_zero-others :
      (a b : A) (bs : List A) (k : ℕ) → k ≢ zero → get_elem? (a ∷ bs) k ≡ get_elem? (b ∷ bs) k
  set_at_zero-others a b bs zero ne = absurd (ne refl)
  set_at_zero-others a b bs (suc k) ne = refl

  set_at_suc-others :
      (i : ℕ) (b : A) (xs ys : List A) (k : ℕ)
      → ((j : ℕ) → j ≢ i → get_elem? ys j ≡ get_elem? xs j)
      → k ≢ suc i
      → get_elem? (b ∷ ys) k ≡ get_elem? (b ∷ xs) k
  set_at_suc-others i b xs ys zero same ne = refl
  set_at_suc-others i b xs ys (suc k) same ne = same k (λ e. ne (ap suc e))

  pub set_at-IsPut :
      (i : ℕ) (a : A) (xs : List A)
      → i < length xs
      → (ys : List A) × (set_at i a xs ≡ some ys) × (length ys ≡ length xs) × IsPut i a xs ys
  unfolding set_at
  set_at-IsPut i a [] h = absurd (omega arith)
  set_at-IsPut zero a (x ∷ xs) h =
      (a ∷ xs, refl, refl, record { at = refl; others = set_at_zero-others a x xs })
  set_at-IsPut (suc i) a (x ∷ xs) h =
      let (ys, e, same_length, put) = set_at-IsPut i a xs (omega arith) in
      (
        x ∷ ys,
        rw (set_at, e) refl,
        ap suc same_length,
        record { at = put.at; others = λ k ne. set_at_suc-others i x xs ys k put.others ne },
      )

  append_nil-others : (a : A) (k : ℕ) → k ≢ zero → get_elem? (a ∷ []) k ≡ get_elem? [] k
  append_nil-others a zero ne = absurd (ne refl)
  append_nil-others a (suc k) ne = refl

  append-IsPut : (i : ℕ) (a : A) (xs : List A) → i ≡ length xs → IsPut i a xs (xs ++ a ∷ [])
  append-IsPut zero a [] h = record { at = refl; others = append_nil-others a }
  append-IsPut (suc i) a [] h = absurd (omega arith)
  append-IsPut zero a (x ∷ xs) h = absurd (omega arith)
  append-IsPut (suc i) a (x ∷ xs) h =
      let put = append-IsPut i a xs (omega arith) in
      record {
        at = put.at;
        others = λ k ne. set_at_suc-others i x xs (xs ++ a ∷ []) k put.others ne;
      }

  some_or-lt :
      (i : ℕ) (d : A) (xs : List A)
      → i < length xs
      → get_elem? xs i ≡ some (some_or (get_elem? xs i) d)
  some_or-lt i d [] h = absurd (omega arith)
  some_or-lt zero d (x ∷ xs) h = refl
  some_or-lt (suc i) d (x ∷ xs) h = some_or-lt i d xs (omega arith)

-- The choice of a line before it is drawn: ours where there is none and ours has the line.
abbrev pub old_choice : ℕ → ℕ → List ConflictLineSource → ConflictLineSource
old_choice idx ours_len choices =
    some_or (get_elem? choices idx) (if ltb idx ours_len then ours else theirs)

-- A line that has no choice yet gets one, the other lines keep theirs.
pub push_missing-IsPut :
    (idx ours_len : ℕ) (choices : List ConflictLineSource)
    → idx ≤ length choices
    → (length (push_missing idx ours_len choices) ≡ max (length choices) (suc idx))
      × IsPut idx (old_choice idx ours_len choices) choices (push_missing idx ours_len choices)
unfolding push_missing
push_missing-IsPut idx ours_len choices h = elim (Bool-cases (leb (length choices) idx)) [
  | inr b ↦ rw b (
    ground arith,
    record {
      at = some_or-lt idx (if ltb idx ours_len then ours else theirs) choices (ground arith);
      others = λ k ne. refl;
    },
  )
  | inl b ↦
      let short : length choices ≤ idx = ground arith in
      rw (b, get_elem?-ge idx choices short)
        (
          omega (arith, length-append choices ((if ltb idx ours_len then ours else theirs) ∷ [])),
          append-IsPut idx (if ltb idx ours_len then ours else theirs) choices (omega arith),
        )
]
