-- ===== src/History/RoundTrip.antt =====
-- Printers for the row formats that gui/src/main.rs asks git for, and the parsers on what they
-- print.
use dqrvcs.Prelude.{
  false, List, [], ◌∷◌, ◌++◌, ◌≡◌, refl, ap, ◌∙◌, All, is_empty, Option, some, map,
}
use dqrvcs.Text.{Text, codes}
use dqrvcs.Text.Trim.{trim}
use dqrvcs.Text.Split.{split_by, join}
use dqrvcs.Text.Lines.{Free, IsRow, lines-join, split_by_piece, split_by_last}
use dqrvcs.History.{
  CommitSummary, ReflogEntry, is_unit, commit_of, reflog_of, collect, parse_recent_commits,
  parse_reflog_entries,
}

-- A field of a row: trimmed, with no separator in it.
pub record IsField (t : Text) : Type 0 where
  pub solid : trim t ≡ t
  pub whole : Free is_unit t

abbrev sep : Text → Text → Text
sep t rest = t ++ 0x1f ∷ rest

-- `%H%x1f%h%x1f%an%x1f%ad%x1f%s`
abbrev pub print_commit : CommitSummary → Text
print_commit c = sep c.hash (sep c.short_hash (sep c.author (sep c.date c.subject)))

pub record IsCommit (c : CommitSummary) : Type 0 where
  pub hash : IsField c.hash
  pub short_hash : IsField c.short_hash
  pub author : IsField c.author
  pub date : IsField c.date
  pub subject : IsField c.subject
  pub named : is_empty c.hash ≡ false
  pub row : IsRow (print_commit c)

split_sep : (t rest : Text) → IsField t → split_by is_unit (sep t rest) ≡ t ∷ split_by is_unit rest
split_sep t rest f = split_by_piece is_unit t 0x1f rest f.whole refl

split_commit :
    (c : CommitSummary)
    → IsCommit c
    → split_by is_unit (print_commit c) ≡ c.hash ∷ c.short_hash ∷ c.author ∷ c.date ∷ c.subject ∷ []
split_commit c h =
    split_sep c.hash _ h.hash
    ∙ ap (λ ts. c.hash ∷ ts)
        (split_sep c.short_hash _ h.short_hash
          ∙ ap (λ ts. c.short_hash ∷ ts)
              (split_sep c.author _ h.author
                ∙ ap (λ ts. c.author ∷ ts)
                    (split_sep c.date _ h.date
                      ∙ ap (λ ts. c.date ∷ ts) (split_by_last is_unit c.subject h.subject.whole))))

commit_of-fields :
    (c : CommitSummary)
    → IsCommit c
    → commit_of (c.hash ∷ c.short_hash ∷ c.author ∷ c.date ∷ c.subject ∷ []) ≡ some c
unfolding commit_of
commit_of-fields c h =
    rw (h.hash.solid, h.named, h.short_hash.solid, h.author.solid, h.date.solid, h.subject.solid)

-- A row function that reads back what is printed, on all rows.
collect-print :
    {A : Type 0} (row : List Text → Option A) (print : A → Text) (xs : List A)
    → All (λ a. row (split_by is_unit (print a)) ≡ some a) xs
    → collect row (map print xs) ≡ xs
collect-print row print [] h = refl
collect-print row print (a ∷ rest) h =
    rw (h.0, collect) (ap (λ t. a ∷ t) (collect-print row print rest h.1))

map-IsRow :
    {A : Type 0} (Good : A → Type 0) (print : A → Text)
    → ((a : A) → Good a → IsRow (print a))
    → (xs : List A) → All Good xs
    → All IsRow (map print xs)
map-IsRow Good print each [] h = tt
map-IsRow Good print each (a ∷ rest) h = (each a h.0, map-IsRow Good print each rest h.1)

All-weaken :
    {A : Type 0} (P Q : A → Type 0) → ((a : A) → P a → Q a) → (xs : List A) → All P xs → All Q xs
All-weaken P Q each [] h = tt
All-weaken P Q each (a ∷ rest) h = (each a h.0, All-weaken P Q each rest h.1)

-- Printed commits, with trimmed fields that hold no separator or newline and a hash, are read back
-- in order.
pub parse_recent_commits-print :
    (cs : List CommitSummary)
    → All IsCommit cs
    → parse_recent_commits (join (codes "\n") (map print_commit cs)) ≡ cs
unfolding parse_recent_commits
parse_recent_commits-print cs h =
    ap (collect commit_of)
      (lines-join (map print_commit cs) (map-IsRow IsCommit print_commit (λ c k. k.row) cs h))
    ∙ collect-print commit_of print_commit cs (
        All-weaken IsCommit (λ c. commit_of (split_by is_unit (print_commit c)) ≡ some c)
          (λ c k. ap commit_of (split_commit c k) ∙ commit_of-fields c k) cs h)

-- `%h%x1f%gd%x1f%gs%x1f%ad`
abbrev pub print_reflog : ReflogEntry → Text
print_reflog e = sep e.short_hash (sep e.selector (sep e.subject e.date))

pub record IsReflog (e : ReflogEntry) : Type 0 where
  pub short_hash : IsField e.short_hash
  pub selector : IsField e.selector
  pub subject : IsField e.subject
  pub date : IsField e.date
  pub named : is_empty e.selector ≡ false
  pub row : IsRow (print_reflog e)

split_reflog :
    (e : ReflogEntry)
    → IsReflog e
    → split_by is_unit (print_reflog e) ≡ e.short_hash ∷ e.selector ∷ e.subject ∷ e.date ∷ []
split_reflog e h =
    split_sep e.short_hash _ h.short_hash
    ∙ ap (λ ts. e.short_hash ∷ ts)
        (split_sep e.selector _ h.selector
          ∙ ap (λ ts. e.selector ∷ ts)
              (split_sep e.subject _ h.subject
                ∙ ap (λ ts. e.subject ∷ ts) (split_by_last is_unit e.date h.date.whole)))

reflog_of-fields :
    (e : ReflogEntry)
    → IsReflog e
    → reflog_of (e.short_hash ∷ e.selector ∷ e.subject ∷ e.date ∷ []) ≡ some e
unfolding reflog_of
reflog_of-fields e h =
    rw (h.selector.solid, h.named, h.short_hash.solid, h.subject.solid, h.date.solid)

-- Printed reflog entries, with trimmed fields that hold no separator or newline and a selector, are
-- read back in order.
pub parse_reflog_entries-print :
    (es : List ReflogEntry)
    → All IsReflog es
    → parse_reflog_entries (join (codes "\n") (map print_reflog es)) ≡ es
unfolding parse_reflog_entries
parse_reflog_entries-print es h =
    ap (collect reflog_of)
      (lines-join (map print_reflog es) (map-IsRow IsReflog print_reflog (λ e k. k.row) es h))
    ∙ collect-print reflog_of print_reflog es (
        All-weaken IsReflog (λ e. reflog_of (split_by is_unit (print_reflog e)) ≡ some e)
          (λ e k. ap reflog_of (split_reflog e k) ∙ reflog_of-fields e k) es h)
