-- ===== src/Draw/Labels.antt =====
-- The texts that panels show: `short_hash`, `non_empty` and the formats of gui/src/main.rs.
use dqrvcs.Prelude.{
  ℕ, Bool, true, false, List, [], ◌∷◌, ◌++◌, ◌==◌, if◌then◌else◌, is_empty, length, take, leb,
}
use dqrvcs.Text.{Text, codes, byte_len}
use dqrvcs.Text.Trim.{trim}
use dqrvcs.Text.Bytes.{show_nat}
use dqrvcs.Text.Split.{concat}

unfoldable pub short_hash : Text → Text
short_hash value =
    let trimmed = trim value in
    if is_empty trimmed
    then codes "-"
    else if leb (byte_len trimmed) 12
    then trimmed
    else take 12 trimmed

unfoldable pub non_empty : Text → Text
non_empty value = let trimmed = trim value in if is_empty trimmed then codes "-" else trimmed

-- `{}` of a Boolean.
abbrev pub show_bool : Bool → Text
show_bool true = codes "true"
show_bool false = codes "false"

-- `{:>3}` of a number.
unfoldable pub show_right_3 : ℕ → Text
show_right_3 n =
    let digits = show_nat n in
    if leb 3 (length digits)
    then digits
    else if length digits == 2
    then codes " " ++ digits
    else codes "  " ++ digits

-- `trim_end_matches('\n')`
unfoldable pub trim_newlines : Text → Text
trim_newlines [] = []
trim_newlines (c ∷ cs) =
    let rest = trim_newlines cs in
    if is_empty rest then if c == b'\n' then [] else c ∷ [] else c ∷ rest

-- `format!`, of its pieces in order.
abbrev pub format : List Text → Text
format pieces = concat pieces
