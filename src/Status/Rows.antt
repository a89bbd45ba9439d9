-- ===== src/Status/Rows.antt =====
-- What one row of `git status --short` becomes.
use dqrvcs.Prelude.{
  ℕ, suc, ◌-◌, ◌≤◌, ◌<◌, Bool, true, false, List, [], ◌∷◌, ◌++◌, ◌≡◌, refl, ap, ap₂, map, ◌∙◌,
  arith, All, is_empty, if◌then◌else◌, Option, none, some, ltb, ◌==◌,
}
use dqrvcs.Text.{Text, codes, byte_len, utf8_width, starts_with}
use dqrvcs.Text.Trim.{trim, trim_end, trim_end-trim, trim_end-cons}
use dqrvcs.Text.Split.{split_str}
use dqrvcs.Text.Bytes.{split_at_byte, cons_left}
use dqrvcs.Status.{
  StatusEntry, normalize_status_path, parse_status_line, parse_status_entries, push_entry,
}

abbrev pub IsAscii : ℕ → Type 0
IsAscii c = c < 0x80

pub utf8_width_ascii : (c : ℕ) → IsAscii c → utf8_width c ≡ 1
unfolding utf8_width
utf8_width_ascii c h = ground arith

utf8_width_pos : (c : ℕ) → 1 ≤ utf8_width c
unfolding utf8_width
utf8_width_pos c = ground arith

split_ascii :
    (n c : ℕ) (s : Text)
    → IsAscii c
    → split_at_byte (suc n) (c ∷ s) ≡ cons_left c (split_at_byte n s)
unfolding split_at_byte
split_ascii n c s h =
    let pred : suc n - 1 ≡ n = omega arith in
    let positive : (suc n == 0) ≡ false = ground arith in
    let wide : ltb (suc n) 1 ≡ false = ground arith in
    rw (utf8_width_ascii c h, pred, positive, wide) refl

split_zero : (s : Text) → split_at_byte 0 s ≡ some ([], s)
unfolding split_at_byte
split_zero [] = refl
split_zero (c ∷ s) = refl

pub split_two :
    (a b : ℕ) (s : Text)
    → IsAscii a
    → IsAscii b
    → split_at_byte 2 (a ∷ b ∷ s) ≡ some (a ∷ b ∷ [], s)
split_two a b s ha hb =
    split_ascii 1 a (b ∷ s) ha
    ∙ ap (cons_left a) (split_ascii 0 b s hb ∙ ap (cons_left b) (split_zero s))

pub split_three :
    (a b c : ℕ) (s : Text)
    → IsAscii a
    → IsAscii b
    → IsAscii c
    → split_at_byte 3 (a ∷ b ∷ c ∷ s) ≡ some (a ∷ b ∷ c ∷ [], s)
split_three a b c s ha hb hc =
    split_ascii 2 a (b ∷ c ∷ s) ha ∙ ap (cons_left a) (split_two b c s hb hc)

-- An entry, unless its path is empty.
abbrev pub entry_unless_empty : Text → Text → Option StatusEntry
entry_unless_empty code path =
    if is_empty path then none else some (record { code = code; path = path })

pub long_enough : (a b c : ℕ) (s : Text) → ltb (byte_len (a ∷ b ∷ c ∷ s)) 3 ≡ false
unfolding byte_len
long_enough a b c s = ground (arith, utf8_width_pos a, utf8_width_pos b, utf8_width_pos c)

pub some_if :
    (b : Bool) (x : StatusEntry)
    → (if b then some none else some (some x)) ≡ some (if b then none else some x)
some_if true x = refl
some_if false x = refl

-- Two ASCII characters, a third, and a path behind them.
pub parse_status_line-cut :
    (a b c : ℕ) (raw : Text)
    → IsAscii a
    → IsAscii b
    → IsAscii c
    → is_empty raw ≡ false
    → trim raw ≡ raw
    → parse_status_line (a ∷ b ∷ c ∷ raw)
      ≡ some (entry_unless_empty (a ∷ b ∷ []) (normalize_status_path raw))
unfolding parse_status_line
parse_status_line-cut a b c raw ha hb hc filled solid =
    let kept : trim_end (a ∷ b ∷ c ∷ raw) ≡ a ∷ b ∷ c ∷ raw =
      trim_end-cons a _
        (trim_end-cons b _ (trim_end-cons c raw (rw solid at (trim_end-trim raw)) filled) refl)
        refl in
    rw
      (
        kept,
        long_enough a b c raw,
        split_two a b (c ∷ raw) ha hb,
        kept,
        split_three a b c raw ha hb hc,
        solid,
      )
      (some_if (is_empty (normalize_status_path raw)) _)

-- A row of two status letters, a blank and a path, as git prints it.
pub parse_status_line-row :
    (a b : ℕ) (raw : Text)
    → IsAscii a
    → IsAscii b
    → is_empty raw ≡ false
    → trim raw ≡ raw
    → parse_status_line (a ∷ b ∷ b' ' ∷ raw)
      ≡ some (entry_unless_empty (a ∷ b ∷ []) (normalize_status_path raw))
parse_status_line-row a b raw ha hb filled solid =
    parse_status_line-cut a b b' ' raw ha hb (omega arith) filled solid

-- Paths that git prints bare: no arrow and no quote at the front.
pub record IsBare (path : Text) : Type 0 where
  pub filled : is_empty path ≡ false
  pub solid : trim path ≡ path
  pub no_arrow : split_str (codes " -> ") 0 path ≡ path ∷ []
  pub no_quote : starts_with path (codes "\"") ≡ false

pub normalize-bare : (path : Text) → IsBare path → normalize_status_path path ≡ path
unfolding normalize_status_path
normalize-bare path h = rw (h.no_arrow, h.solid, h.no_quote)

pub entry_of_bare :
    (code path : Text)
    → IsBare path
    → entry_unless_empty code (normalize_status_path path)
      ≡ some (record { code = code; path = path })
entry_of_bare code path h = rw (normalize-bare path h, h.filled)

-- The arrow of a rename: what stands behind it is the path.
pub normalize-renamed :
    (old path : Text)
    → split_str (codes " -> ") 0 (old ++ (codes " -> " ++ path)) ≡ old ∷ path ∷ []
    → trim path ≡ path
    → starts_with path (codes "\"") ≡ false
    → normalize_status_path (old ++ (codes " -> " ++ path)) ≡ path
unfolding normalize_status_path
normalize-renamed old path split solid no_quote = rw (split, solid, no_quote)

-- What `git status --short` prints for these entries, with bare paths.
abbrev pub print_row : StatusEntry → Text
print_row e = e.code ++ b' ' ∷ e.path

-- Two ASCII letters, and a bare path.
pub record IsRowOf (e : StatusEntry) : Type 0 where
  pub first : ℕ
  pub second : ℕ
  pub code_is : e.code ≡ first ∷ second ∷ []
  pub first_ascii : IsAscii first
  pub second_ascii : IsAscii second
  pub bare : IsBare e.path

parse_status_line-print_row :
    (e : StatusEntry) → IsRowOf e → parse_status_line (print_row e) ≡ some (some e)
parse_status_line-print_row e r = rw r.code_is (
    parse_status_line-row r.first r.second e.path r.first_ascii r.second_ascii r.bare.filled
      r.bare.solid
    ∙ rw (normalize-bare e.path r.bare, r.bare.filled) (rw (← r.code_is) refl))

-- Printed rows of two ASCII characters and a path that git prints bare are read back.
pub parse_status_entries-print_row :
    (es : List StatusEntry) → All IsRowOf es → parse_status_entries (map print_row es) ≡ some es
unfolding parse_status_entries
parse_status_entries-print_row [] h = refl
parse_status_entries-print_row (e ∷ es) h =
    ap₂ push_entry (parse_status_line-print_row e h.0) (parse_status_entries-print_row es h.1)
