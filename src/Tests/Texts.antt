-- ===== src/Tests/Texts.antt =====
-- The text formats on concrete texts.
use dqrvcs.Prelude.{
  ℕ, true, false, not, ◌+◌, false, List, [], ◌∷◌, ◌++◌, ◌≡◌, ◌↔◌, ◌<◌, refl, arith, All, ok, err,
  map, length, retain, not, is_empty, some,
}
use dqrvcs.Text.{Text, codes, eqb, is_whitespace, starts_with, contains}
use dqrvcs.Text.Trim.{trim, is_blank}
use dqrvcs.Text.Split.{split_inclusive, concat, lines, split_whitespace, split_by, split_str, join}
use dqrvcs.Args.{build_squash_args}
use dqrvcs.Args.Squash.{accepts, build_squash_args_iff}
use dqrvcs.Args.Solid.{path_action, build, Sends, build-IsSolid}
use dqrvcs.Cli.{parse_cli_tokens}
use dqrvcs.Cli.Quote.{quote_all, parse_cli_tokens-quote_all}
use dqrvcs.Cli.Words.{IsFilled, parse_cli_tokens-split_whitespace, parse_cli_tokens-IsFilled}
use dqrvcs.Conflict.{
  opens, separates, closes, ConflictSection, plain, hunk, new_hunk, theirs, ours,
  parse_conflict_sections, compose_conflict_editor_output, apply_conflict_choice_to_all_hunks,
}
use dqrvcs.Conflict.Sides.{
  version, unresolved, compose-apply_ours, parse-apply_theirs, parse-unresolved,
}
use dqrvcs.Conflict.Grammar.{Marked, concat-split_inclusive}
use dqrvcs.Conflict.Sound.{parse_conflict_sections-Marked}
use dqrvcs.Status.{StatusEntry, parse_status_entries}
use dqrvcs.Status.Rows.{print_row, IsBare, IsRowOf, parse_status_entries-print_row}
use dqrvcs.Status.{status_lines}
use dqrvcs.Status.Ascii.{AllAscii, entries_of}
use dqrvcs.System.{System}
use dqrvcs.Git.{RepoData, load_repo_data}
use dqrvcs.Git.Loads.{StatusPrints, load_repo_data-ascii}
use dqrvcs.Tests.Sample.{tiny, answer}
use dqrvcs.Status.FirstRow.{first_row_shifted}
use dqrvcs.Todo.{validate_rebase_todo_text, is_skipped, command_of, allowed}
use dqrvcs.Todo.Lines.{
  IsGood, steps, bad_line, validate_rebase_todo_text_iff, validate_rebase_todo_text-IsBad,
}
use dqrvcs.History.{CommitSummary, ReflogEntry, parse_recent_commits, parse_reflog_entries}
use dqrvcs.History.RoundTrip.{
  IsCommit, IsReflog, print_commit, print_reflog, parse_recent_commits-print,
  parse_reflog_entries-print,
}

abbrev conflicted : Text
conflicted = codes "a\n<<<<<<< HEAD\nb\n=======\nc\nd\n>>>>>>> x\ne"

abbrev sections : List ConflictSection
sections =
    plain (codes "a\n")
    ∷ hunk (new_hunk (codes "b\n" ∷ []) (codes "c\n" ∷ codes "d\n" ∷ []))
    ∷ plain (codes "e")
    ∷ []

conflicted_parses : parse_conflict_sections conflicted ≡ ok sections
unfolding parse_conflict_sections codes split_inclusive starts_with concat opens separates closes
conflicted_parses = refl

parse_conflict_sections-Marked_example :
    (parse_conflict_sections conflicted ≡ ok sections)
    ↔ Marked (split_inclusive conflicted) sections
parse_conflict_sections-Marked_example = parse_conflict_sections-Marked conflicted sections

compose-apply_ours_example :
    compose_conflict_editor_output (apply_conflict_choice_to_all_hunks sections ours)
    ≡ version ours sections
compose-apply_ours_example = compose-apply_ours sections

parse-apply_theirs_example :
    compose_conflict_editor_output (apply_conflict_choice_to_all_hunks sections theirs)
    ≡ version theirs sections
parse-apply_theirs_example = parse-apply_theirs conflicted sections conflicted_parses

parse-unresolved_example : compose_conflict_editor_output sections ≡ unresolved sections
parse-unresolved_example = parse-unresolved conflicted sections conflicted_parses

unresolved_mixes_sides : unresolved sections ≡ codes "a\nb\nd\ne"
unfolding codes concat new_hunk
unresolved_mixes_sides = refl

concat-split_inclusive_example : concat (split_inclusive conflicted) ≡ conflicted
concat-split_inclusive_example = concat-split_inclusive conflicted

solid_word : (trim (codes "stage") ≡ codes "stage") × (is_empty (codes "stage") ≡ false)
unfolding codes trim is_whitespace
solid_word = (refl, refl)

build-IsSolid_example : Sends (build (path_action "stage" (codes " a.txt ") (codes "none")))
build-IsSolid_example =
    build-IsSolid (path_action "stage" (codes " a.txt ") (codes "none")) solid_word

abbrev words : List Text
words = codes "commit" ∷ codes "-m" ∷ codes "two \"words\"" ∷ [] ∷ []

parse_cli_tokens-quote_all_example :
    parse_cli_tokens (quote_all words) ≡ ok (retain (λ t. not (is_empty t)) words)
parse_cli_tokens-quote_all_example = parse_cli_tokens-quote_all words

abbrev plain_line : Text
plain_line = codes " log  -n 5"

parse_cli_tokens-split_whitespace_example :
    parse_cli_tokens plain_line ≡ ok (split_whitespace plain_line)
unfolding codes
parse_cli_tokens-split_whitespace_example =
    parse_cli_tokens-split_whitespace plain_line
      (refl, (refl, (refl, (refl, (refl, (refl, (refl, (refl, (refl, (refl, tt))))))))))

quoted_parses : parse_cli_tokens (codes "op \"a b\" ''") ≡ ok (codes "op" ∷ codes "a b" ∷ [])
unfolding parse_cli_tokens codes is_whitespace
quoted_parses = refl

parse_cli_tokens-IsFilled_example : All IsFilled (codes "op" ∷ codes "a b" ∷ [])
parse_cli_tokens-IsFilled_example =
    parse_cli_tokens-IsFilled (codes "op \"a b\" ''") (codes "op" ∷ codes "a b" ∷ []) quoted_parses

abbrev renamed_row : StatusEntry
renamed_row = record { code = codes "M "; path = codes "src/é.rs" }

renamed_row-IsRowOf : IsRowOf renamed_row
unfolding codes trim is_whitespace split_str starts_with
renamed_row-IsRowOf = record {
  first = b'M';
  second = b' ';
  code_is = refl;
  first_ascii = omega arith;
  second_ascii = omega arith;
  bare = record { filled = refl; solid = refl; no_arrow = refl; no_quote = refl };
}

parse_status_entries-print_row_example :
    parse_status_entries (map print_row (renamed_row ∷ renamed_row ∷ []))
    ≡ some (renamed_row ∷ renamed_row ∷ [])
parse_status_entries-print_row_example =
    parse_status_entries-print_row (renamed_row ∷ renamed_row ∷ [])
      (renamed_row-IsRowOf, (renamed_row-IsRowOf, tt))

abbrev tail_of_ab : Text
tail_of_ab = b'b' ∷ []

tail_of_ab-IsBare : IsBare tail_of_ab
unfolding codes trim is_whitespace split_str starts_with
tail_of_ab-IsBare = record { filled = refl; solid = refl; no_arrow = refl; no_quote = refl }

modified_solid : is_whitespace b'M' ≡ false
unfolding is_whitespace
modified_solid = refl

abbrev one_row : Text
one_row = b' ' ∷ b'M' ∷ b' ' ∷ b'a' ∷ (tail_of_ab ++ b'\n' ∷ [])

-- Git prints the row ` M ab` for every command.
abbrev changed_ab : System
changed_ab = record tiny { process_output = λ program args w. (ok (answer one_row), w + 1) }

changed_ab-StatusPrints : StatusPrints changed_ab (codes "/r") one_row
changed_ab-StatusPrints = record { at = λ w. (answer one_row, w + 1, refl, refl, refl) }

one_row-AllAscii : AllAscii one_row
one_row-AllAscii =
    (omega arith, (omega arith, (omega arith, (omega arith, (omega arith, (omega arith, tt))))))

load_repo_data-ascii_example :
    (repo_data : RepoData) × (w' : ℕ) × (load_repo_data changed_ab (codes "/r") 0
      ≡ some (ok repo_data, w'))
    × (repo_data.status_entries ≡ entries_of (status_lines (trim one_row)))
load_repo_data-ascii_example =
    load_repo_data-ascii changed_ab (codes "/r") one_row 0 changed_ab-StatusPrints one_row-AllAscii

-- It is read as the code `M ` and the path `b`.
first_row_shifted_example :
    (repo_data : RepoData) × (w' : ℕ) × (load_repo_data changed_ab (codes "/r") 0
      ≡ some (ok repo_data, w'))
    × (repo_data.status_entries ≡ record { code = b'M' ∷ b' ' ∷ []; path = tail_of_ab } ∷ [])
first_row_shifted_example =
    first_row_shifted changed_ab (codes "/r") 0 b'M' b'a' tail_of_ab changed_ab-StatusPrints
      (omega arith) (omega arith) modified_solid (refl, (refl, (refl, tt))) tail_of_ab-IsBare

abbrev todo : Text
todo = codes "# plan\n\npick 1 a\npluck 2\n"

validate_rebase_todo_text_iff_example :
    (validate_rebase_todo_text todo ≡ ok tt) ↔ (All IsGood (lines todo) × (0 < steps (lines todo)))
validate_rebase_todo_text_iff_example = validate_rebase_todo_text_iff todo

abbrev good_lines : List Text
good_lines = codes "# plan" ∷ [] ∷ codes "pick 1 a" ∷ []

lines-todo : lines todo ≡ good_lines ++ codes "pluck 2" ∷ []
unfolding lines split_inclusive codes
lines-todo = refl

good_lines-IsGood : All IsGood good_lines
unfolding is_skipped contains command_of allowed codes trim is_whitespace starts_with
    split_whitespace split_by eqb
good_lines-IsGood = (refl, (refl, (refl, tt)))

pluck_is_bad :
    (is_skipped (codes "pluck 2") ≡ false)
    × (contains allowed (command_of (codes "pluck 2")) ≡ false)
unfolding is_skipped contains command_of allowed codes trim is_whitespace starts_with
    split_whitespace split_by eqb
pluck_is_bad = (refl, refl)

validate_rebase_todo_text-IsBad_example :
    validate_rebase_todo_text todo ≡ err (bad_line (length good_lines + 1) (codes "pluck 2"))
validate_rebase_todo_text-IsBad_example =
    validate_rebase_todo_text-IsBad todo good_lines (codes "pluck 2") [] lines-todo
      good_lines-IsGood pluck_is_bad

abbrev first_commit : CommitSummary
first_commit = record {
  hash = codes "c0";
  short_hash = codes "c";
  author = codes "Ann";
  date = codes "1";
  subject = codes "a b";
}

first_commit-IsCommit : IsCommit first_commit
unfolding codes trim is_whitespace
first_commit-IsCommit = record {
  hash = record { solid = refl; whole = (refl, (refl, tt)) };
  short_hash = record { solid = refl; whole = (refl, tt) };
  author = record { solid = refl; whole = (refl, (refl, (refl, tt))) };
  date = record { solid = refl; whole = (refl, tt) };
  subject = record { solid = refl; whole = (refl, (refl, (refl, tt))) };
  named = refl;
  row = record {
    filled = refl;
    one_line = (
      refl,
      (
        refl,
        (
          refl,
          (
            refl,
            (refl, (refl, (refl, (refl, (refl, (refl, (refl, (refl, (refl, (refl, tt)))))))))),
          ),
        ),
      ),
    );
    ends = refl;
  };
}

parse_recent_commits-print_example :
    parse_recent_commits (join (codes "\n") (map print_commit (first_commit ∷ [])))
    ≡ first_commit ∷ []
parse_recent_commits-print_example =
    parse_recent_commits-print (first_commit ∷ []) (first_commit-IsCommit, tt)

abbrev first_entry : ReflogEntry
first_entry = record {
  short_hash = codes "c";
  selector = codes "h";
  subject = codes "a b";
  date = codes "1";
}

first_entry-IsReflog : IsReflog first_entry
unfolding codes trim is_whitespace
first_entry-IsReflog = record {
  short_hash = record { solid = refl; whole = (refl, tt) };
  selector = record { solid = refl; whole = (refl, tt) };
  subject = record { solid = refl; whole = (refl, (refl, (refl, tt))) };
  date = record { solid = refl; whole = (refl, tt) };
  named = refl;
  row = record {
    filled = refl;
    one_line = (refl, (refl, (refl, (refl, (refl, (refl, (refl, (refl, (refl, tt)))))))));
    ends = refl;
  };
}

parse_reflog_entries-print_example :
    parse_reflog_entries (join (codes "\n") (map print_reflog (first_entry ∷ [])))
    ≡ first_entry ∷ []
parse_reflog_entries-print_example =
    parse_reflog_entries-print (first_entry ∷ []) (first_entry-IsReflog, tt)

build_squash_args_iff_example :
    (accepts (build_squash_args (codes "2") (codes " ") (codes "m") false) ≡ true)
    ↔ ((is_blank (codes "m") ≡ false) × (is_blank (codes "2") ≡ not (is_blank (codes " "))))
build_squash_args_iff_example = build_squash_args_iff (codes "2") (codes " ") (codes "m") false
