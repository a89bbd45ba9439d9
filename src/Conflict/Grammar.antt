-- ===== src/Conflict/Grammar.antt =====
-- Conflict files as a grammar of lines: runs of text, and hunks between their three markers.
use mathlib.Core.Bool.{false≢true}
use dqrvcs.Prelude.{
  ℕ, true, false, List, [], ◌∷◌, ◌++◌, ◌≡◌, refl, ap, ◌∙◌, sym, All, ok, is_empty, append-nil,
  append_assoc, Bool-cases, inl, inr, ◌==◌,
}
use dqrvcs.Text.{Text}
use dqrvcs.Text.Split.{concat, split_inclusive, cons_first}
use dqrvcs.Conflict.{
  ConflictSection, plain, hunk, new_hunk, push_plain, opens, separates, closes, parse_outer,
  parse_ours, parse_theirs,
}

abbrev pub IsLine : Text → Type 0
IsLine l = is_empty l ≡ false

-- At the end, or at a line that opens a hunk.
abbrev pub AtHunk : List Text → Type 0
AtHunk [] = Unit
AtHunk (l ∷ ls) = opens l ≡ true

-- A hunk's lines: `<<<<<<<`, ours, `=======`, theirs, `>>>>>>>`, and what follows.
pub record HunkLines (ls os ts rest : List Text) : Type 0 where
  pub first : Text
  pub middle : Text
  pub last : Text
  pub opened : opens first ≡ true
  pub ours_inside : All (λ l. separates l ≡ false) os
  pub separated : separates middle ≡ true
  pub theirs_inside : All (λ l. closes l ≡ false) ts
  pub is_closed : closes last ≡ true
  pub lines_are : ls ≡ first ∷ (os ++ middle ∷ (ts ++ last ∷ rest))

-- These lines are these sections.
pub data Marked : List Text → List ConflictSection → Type 0 where
  finished : {ls : List Text} {ss : List ConflictSection} → ls ≡ [] → ss ≡ [] → Marked ls ss
  text :
      {ls : List Text} {ss : List ConflictSection} (run rest : List Text)
      → ls ≡ run ++ rest
      → is_empty run ≡ false
      → All (λ l. opens l ≡ false) run
      → AtHunk rest
      → Marked rest ss
      → (out : List ConflictSection) → out ≡ plain (concat run) ∷ ss
      → Marked ls out
  conflict :
      {ls : List Text} {ss : List ConflictSection} (os ts rest : List Text)
      → HunkLines ls os ts rest
      → Marked rest ss
      → (out : List ConflictSection) → out ≡ hunk (new_hunk os ts) ∷ ss
      → Marked ls out

-- The three loops over the lines that they collect.
outer_run :
    (run rest : List Text) (t : Text) (acc : List ConflictSection)
    → All (λ l. opens l ≡ false) run
    → parse_outer (run ++ rest) t acc ≡ parse_outer rest (t ++ concat run) acc
unfolding parse_outer concat
outer_run [] rest t acc h = rw append-nil
outer_run (l ∷ run) rest t acc h =
    rw (h.0, parse_outer) (outer_run run rest (t ++ l) acc h.1 ∙ rw append_assoc)

ours_run :
    (os : List Text) (s : Text) (rest got : List Text) (acc : List ConflictSection)
    → All (λ l. separates l ≡ false) os
    → separates s ≡ true
    → parse_ours (os ++ s ∷ rest) got acc ≡ parse_theirs rest (got ++ os) [] acc
unfolding parse_ours
ours_run [] s rest got acc h e = rw (e, parse_ours) (rw append-nil)
ours_run (l ∷ os) s rest got acc h e =
    rw (h.0, parse_ours) (ours_run os s rest (got ++ l ∷ []) acc h.1 e ∙ rw append_assoc)

theirs_run :
    (ts : List Text) (c : Text) (rest os got : List Text) (acc : List ConflictSection)
    → All (λ l. closes l ≡ false) ts
    → closes c ≡ true
    → parse_theirs (ts ++ c ∷ rest) os got acc
      ≡ parse_outer rest [] (acc ++ hunk (new_hunk os (got ++ ts)) ∷ [])
unfolding parse_theirs
theirs_run [] c rest os got acc h e = rw (e, parse_theirs) (rw append-nil)
theirs_run (l ∷ ts) c rest os got acc h e =
    rw (h.0, parse_theirs) (theirs_run ts c rest os (got ++ l ∷ []) acc h.1 e ∙ rw append_assoc)

outer_open :
    (l : Text) (rest : List Text) (t : Text) (acc : List ConflictSection)
    → opens l ≡ true
    → parse_outer (l ∷ rest) t acc ≡ parse_ours rest [] (push_plain t acc)
unfolding parse_outer
outer_open l rest t acc h = rw (h, parse_outer) refl

hunk_run :
    {ls : List Text} (os ts rest : List Text) (acc : List ConflictSection)
    → HunkLines ls os ts rest
    → parse_outer ls [] acc ≡ parse_outer rest [] (acc ++ hunk (new_hunk os ts) ∷ [])
hunk_run os ts rest acc h = rw h.lines_are (
    outer_open h.first _ [] acc h.opened
    ∙ ours_run os h.middle (ts ++ h.last ∷ rest) [] acc h.ours_inside h.separated
    ∙ theirs_run ts h.last rest os [] acc h.theirs_inside h.is_closed)

pub push_plain-concat :
    (ls : List Text) (acc : List ConflictSection)
    → is_empty ls ≡ false
    → All IsLine ls
    → push_plain (concat ls) acc ≡ acc ++ plain (concat ls) ∷ []
unfolding concat
push_plain-concat [] acc e h = cc
push_plain-concat ([] ∷ ls) acc e h = absurd (false≢true (sym h.0))
push_plain-concat ((c ∷ l) ∷ ls) acc e h = refl

at_hunk :
    (rest : List Text) (t : Text) (acc : List ConflictSection)
    → AtHunk rest
    → parse_outer rest t acc ≡ parse_outer rest [] (push_plain t acc)
unfolding parse_outer
at_hunk [] t acc h = refl
at_hunk (l ∷ rest) t acc h = rw (h, parse_outer) refl

All-suffix {ℓ κ} :
    {A : Type ℓ} (P : A → Type κ) (xs ys : List A) → All P (xs ++ ys) → All P xs × All P ys
All-suffix P [] ys h = (tt, h)
All-suffix P (x ∷ xs) ys h = let (k, m) = All-suffix P xs ys h.1 in ((h.0, k), m)

hunk_rest :
    {ls : List Text} (os ts rest : List Text)
    → HunkLines ls os ts rest
    → All IsLine ls
    → All IsLine rest
hunk_rest os ts rest h all =
    let inner = (rw h.lines_are at all).1 in
    let behind = (All-suffix IsLine os _ inner).1.1 in (All-suffix IsLine ts _ behind).1.1

-- The parser accepts what the grammar describes.
pub Marked-parse_outer :
    {ls : List Text} {ss : List ConflictSection} (acc : List ConflictSection)
    → Marked ls ss
    → All IsLine ls
    → parse_outer ls [] acc ≡ ok (acc ++ ss)
unfolding parse_outer
Marked-parse_outer acc (finished e f) all = rw (e, f, append-nil)
Marked-parse_outer acc (text {ss} run rest e filled inside at m out f) all =
    let (run_lines, rest_lines) = All-suffix IsLine run rest (rw e at all) in
    rw (e, f)
      (outer_run run rest [] acc inside
        ∙ at_hunk rest (concat run) acc at
        ∙ ap (parse_outer rest []) (push_plain-concat run acc filled run_lines)
        ∙ Marked-parse_outer (acc ++ plain (concat run) ∷ []) m rest_lines
        ∙ ap ok (append_assoc acc (plain (concat run) ∷ []) ss))
Marked-parse_outer acc (conflict {ss} os ts rest h m out f) all = rw f (
    hunk_run os ts rest acc h
    ∙ Marked-parse_outer (acc ++ hunk (new_hunk os ts) ∷ []) m (hunk_rest os ts rest h all)
    ∙ ap ok (append_assoc acc (hunk (new_hunk os ts) ∷ []) ss))

cons_first-IsLine : (c : ℕ) (ls : List Text) → All IsLine ls → All IsLine (cons_first c ls)
cons_first-IsLine c [] h = (refl, tt)
cons_first-IsLine c (l ∷ ls) h = (refl, h.1)

pub split_inclusive-IsLine : (raw : Text) → All IsLine (split_inclusive raw)
unfolding split_inclusive
split_inclusive-IsLine [] = tt
split_inclusive-IsLine (c ∷ cs) = elim (Bool-cases (c == b'\n')) [
  | inl e ↦ rw e (refl, split_inclusive-IsLine cs)
  | inr e ↦ rw e (cons_first-IsLine c (split_inclusive cs) (split_inclusive-IsLine cs))
]

concat-cons_first : (c : ℕ) (ls : List Text) → concat (cons_first c ls) ≡ c ∷ concat ls
unfolding concat
concat-cons_first c [] = refl
concat-cons_first c (l ∷ ls) = refl

-- Splitting into lines loses nothing.
pub concat-split_inclusive : (raw : Text) → concat (split_inclusive raw) ≡ raw
unfolding concat split_inclusive
concat-split_inclusive [] = refl
concat-split_inclusive (c ∷ cs) = elim (Bool-cases (c == b'\n')) [
  | inl e ↦ rw e (ap (λ t. c ∷ t) (concat-split_inclusive cs))
  | inr e ↦
      rw e (concat-cons_first c (split_inclusive cs) ∙ ap (λ t. c ∷ t) (concat-split_inclusive cs))
]
