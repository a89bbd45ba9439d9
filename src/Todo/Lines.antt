-- ===== src/Todo/Lines.antt =====
-- The lines of a rebase todo text, as `validate_rebase_todo_text` (gui/src/main.rs) reads them.
use dqrvcs.Prelude.{
  ℕ, suc, ◌+◌, ◌<◌, true, false, ◌||◌, List, [], ◌∷◌, ◌++◌, ◌≡◌, ◌↔◌, ap, ◌∙◌, arith, All,
  if◌then◌else◌, Result, ok, err, length,
}
use dqrvcs.Text.{Text, codes, contains}
use dqrvcs.Text.Split.{lines}
use dqrvcs.Text.Bytes.{show_nat}
use dqrvcs.Todo.{allowed, is_skipped, command_of, validate_from, validate_rebase_todo_text}

-- Blank, a comment, or a step that git knows.
abbrev pub IsGood : Text → Type 0
IsGood line = (is_skipped line || contains allowed (command_of line)) ≡ true

-- A step that git does not know.
abbrev pub IsBad : Text → Type 0
IsBad line = (is_skipped line ≡ false) × (contains allowed (command_of line) ≡ false)

-- The lines that are steps.
abbrev pub steps : List Text → ℕ
steps [] = 0
steps (line ∷ rest) = (if is_skipped line then 0 else 1) + steps rest

validate_from_iff :
    (ls : List Text) (idx n : ℕ)
    → (validate_from idx n ls ≡ ok tt) ↔ (All IsGood ls × (0 < n + steps ls))
unfolding validate_from
validate_from_iff [] idx n = ground arith
validate_from_iff (line ∷ rest) idx n =
    ground (arith, validate_from_iff rest (idx + 1) n, validate_from_iff rest (idx + 1) (n + 1))

-- A todo text is accepted exactly if each line is blank, a comment or a known step, and at least
-- one is a step.
pub validate_rebase_todo_text_iff :
    (todo : Text)
    → (validate_rebase_todo_text todo ≡ ok tt)
      ↔ (All IsGood (lines todo) × (0 < steps (lines todo)))
unfolding validate_rebase_todo_text
validate_rebase_todo_text_iff todo =
    let both = validate_from_iff (lines todo) 0 0 in
    (
      λ e. let (good, some_step) = both.0 e in (good, omega arith),
      λ (good, some_step). both.1 (good, omega arith),
    )

abbrev pub bad_line : ℕ → Text → Text
bad_line number line =
    codes "Invalid rebase todo command on line "
    ++ (show_nat number ++ (codes ": " ++ command_of line))

abbrev bad_error : ℕ → Text → Result (Unit {0})
bad_error number line = err (bad_line number line)

validate_from-IsBad :
    (good : List Text) (line : Text) (rest : List Text) (idx n : ℕ)
    → All IsGood good
    → IsBad line
    → validate_from idx n (good ++ line ∷ rest) ≡ err (bad_line (idx + length good + 1) line)
unfolding validate_from
validate_from-IsBad [] line rest idx n h b = let e : idx + 0 ≡ idx = omega arith in rw (b.0, b.1, e)
validate_from-IsBad (l ∷ good) line rest idx n h b =
    let same : idx + 1 + length good + 1 ≡ idx + suc (length good) + 1 = omega arith in
    let named : bad_error (idx + 1 + length good + 1) line
        ≡ bad_error (idx + suc (length good) + 1) line =
      ap (λ k. bad_error k line) same in
    ground (
      arith,
      validate_from-IsBad good line rest (idx + 1) n h.1 b ∙ named,
      validate_from-IsBad good line rest (idx + 1) (n + 1) h.1 b ∙ named,
    )

-- Where the lines up to some line are blank, comments or known steps, and that line is not, the
-- error names that line, counted from 1, and its command.
pub validate_rebase_todo_text-IsBad :
    (todo : Text) (good : List Text) (line : Text) (rest : List Text)
    → lines todo ≡ good ++ line ∷ rest
    → All IsGood good
    → IsBad line
    → validate_rebase_todo_text todo ≡ err (bad_line (length good + 1) line)
unfolding validate_rebase_todo_text
validate_rebase_todo_text-IsBad todo good line rest e h b =
    let same : 0 + length good + 1 ≡ length good + 1 = omega arith in
    rw e (validate_from-IsBad good line rest 0 0 h b ∙ ap (λ k. bad_error k line) same)
