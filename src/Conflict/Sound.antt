-- ===== src/Conflict/Sound.antt =====
-- `parse_conflict_sections` (gui/src/main.rs) against the grammar of lines.
use dqrvcs.Prelude.{
  true, false, List, [], ◌∷◌, ◌++◌, ◌≡◌, ◌↔◌, refl, ap, ◌∙◌, sym, All, All-append, ok, append-nil,
  append_assoc, Bool-cases, inl, inr,
}
use dqrvcs.Text.{Text}
use dqrvcs.Text.Split.{concat, split_inclusive}
use dqrvcs.Conflict.{
  ConflictSection, plain, hunk, new_hunk, push_plain, opens, separates, closes, parse_outer,
  parse_ours, parse_theirs, parse_conflict_sections,
}
use dqrvcs.Conflict.Grammar.{
  IsLine, AtHunk, Marked, finished, text, conflict, push_plain-concat, Marked-parse_outer,
  split_inclusive-IsLine,
}

abbrev Accepted : List Text → List ConflictSection → List ConflictSection → Type 0
Accepted ls acc out = (ss : List ConflictSection) × (out ≡ acc ++ ss) × Marked ls ss

-- Text lines that wait in front of lines that begin a hunk, or of none.
prepend :
    (run rest : List Text) (acc out : List ConflictSection)
    → All (λ l. opens l ≡ false) run
    → All IsLine run
    → AtHunk rest
    → Accepted rest (push_plain (concat run) acc) out
    → Accepted (run ++ rest) acc out
unfolding concat
prepend [] rest acc out h lines at a = a
prepend (l ∷ run) rest acc out h lines at (ss, e, m) = (
  plain (concat (l ∷ run)) ∷ ss,
  e
      ∙ ap (λ t. t ++ ss) (push_plain-concat (l ∷ run) acc refl lines)
      ∙ append_assoc acc (plain (concat (l ∷ run)) ∷ []) ss,
  text (l ∷ run) rest refl refl h at m _ refl,
)

finish_run :
    (run : List Text) (acc out : List ConflictSection)
    → All (λ l. opens l ≡ false) run
    → All IsLine run
    → push_plain (concat run) acc ≡ out
    → Accepted (run ++ []) acc out
finish_run run acc out h lines e =
    prepend run [] acc out h lines tt ([], sym (append-nil _ ∙ e), finished refl refl)

concat_snoc : (run : List Text) (l : Text) → concat (run ++ l ∷ []) ≡ concat run ++ l
unfolding concat
concat_snoc [] l = append-nil l
concat_snoc (r ∷ run) l = ap (λ t. r ++ t) (concat_snoc run l) ∙ sym (append_assoc r (concat run) l)

close_hunk :
    (first : Text) (os : List Text) (middle : Text) (ts : List Text) (last : Text)
    (rest : List Text)
    → opens first ≡ true
    → All (λ l. separates l ≡ false) os
    → separates middle ≡ true
    → All (λ l. closes l ≡ false) ts
    → closes last ≡ true
    → (acc out : List ConflictSection) → Accepted rest (acc ++ hunk (new_hunk os ts) ∷ []) out
    → Accepted (first ∷ (os ++ middle ∷ (ts ++ last ∷ rest))) acc out
close_hunk first os middle ts last rest o io s it c acc out (ss, e, m) = (
  hunk (new_hunk os ts) ∷ ss,
  e ∙ append_assoc acc (hunk (new_hunk os ts) ∷ []) ss,
  conflict os ts rest
      (record {
        first = first;
        middle = middle;
        last = last;
        opened = o;
        ours_inside = io;
        separated = s;
        theirs_inside = it;
        is_closed = c;
        lines_are = refl;
      })
      m _ refl,
)

mutual
  unfolding parse_outer parse_ours parse_theirs concat

  outer_sound :
      (ls run : List Text) (acc out : List ConflictSection)
      → All (λ l. opens l ≡ false) run
      → All IsLine run
      → All IsLine ls
      → parse_outer ls (concat run) acc ≡ ok out
      → Accepted (run ++ ls) acc out
  outer_sound [] run acc out h lines all e = finish_run run acc out h lines (cc)
  outer_sound (l ∷ ls) run acc out h lines all e = elim (Bool-cases (opens l)) [
    | inl o ↦
        prepend run (l ∷ ls) acc out h lines o (
          ours_sound ls l [] (push_plain (concat run) acc) out o tt all.1
            (rw (o, parse_outer) at e))
    | inr o ↦ rw append_assoc at (
        outer_sound ls (run ++ l ∷ []) acc out
          (All-append (λ l. opens l ≡ false) run (l ∷ []) h (o, tt))
          (All-append IsLine run (l ∷ []) lines (all.0, tt)) all.1
          (rw concat_snoc (rw (o, parse_outer) at e)))
  ]

  ours_sound :
      (ls : List Text) (first : Text) (os : List Text) (acc out : List ConflictSection)
      → opens first ≡ true
      → All (λ l. separates l ≡ false) os
      → All IsLine ls
      → parse_ours ls os acc ≡ ok out
      → Accepted (first ∷ (os ++ ls)) acc out
  ours_sound [] first os acc out o h all e = cc
  ours_sound (l ∷ ls) first os acc out o h all e = elim (Bool-cases (separates l)) [
    | inl s ↦ theirs_sound ls first os l [] acc out o h s tt all.1 (rw (s, parse_ours) at e)
    | inr s ↦ rw append_assoc at (
        ours_sound ls first (os ++ l ∷ []) acc out o
          (All-append (λ l. separates l ≡ false) os (l ∷ []) h (s, tt)) all.1
          (rw (s, parse_ours) at e))
  ]

  theirs_sound :
      (ls : List Text) (first : Text) (os : List Text) (middle : Text) (ts : List Text)
      (acc out : List ConflictSection)
      → opens first ≡ true
      → All (λ l. separates l ≡ false) os
      → separates middle ≡ true
      → All (λ l. closes l ≡ false) ts
      → All IsLine ls
      → parse_theirs ls os ts acc ≡ ok out
      → Accepted (first ∷ (os ++ middle ∷ (ts ++ ls))) acc out
  theirs_sound [] first os middle ts acc out o h s k all e = cc
  theirs_sound (l ∷ ls) first os middle ts acc out o h s k all e = elim (Bool-cases (closes l)) [
    | inl c ↦
        close_hunk first os middle ts l ls o h s k c acc out
          (outer_sound ls [] _ out tt tt all.1 (rw (c, parse_theirs) at e))
    | inr c ↦ rw (append_assoc ts (l ∷ []) ls) at (
        theirs_sound ls first os middle (ts ++ l ∷ []) acc out o h s
          (All-append (λ l. closes l ≡ false) ts (l ∷ []) k (c, tt)) all.1
          (rw (c, parse_theirs) at e))
  ]

-- The parser returns these sections exactly if the file's lines are marked as these sections: runs
-- of text, and hunks between their three markers.
pub parse_conflict_sections-Marked :
    (raw : Text) (ss : List ConflictSection)
    → (parse_conflict_sections raw ≡ ok ss) ↔ Marked (split_inclusive raw) ss
unfolding parse_conflict_sections concat
parse_conflict_sections-Marked raw ss = (
  λ e.
      let (found, same, m) =
        outer_sound (split_inclusive raw) [] [] ss tt tt (split_inclusive-IsLine raw) e in
      rw same m,
  λ m. Marked-parse_outer [] m (split_inclusive-IsLine raw),
)
