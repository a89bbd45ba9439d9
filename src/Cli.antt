-- ===== src/Cli.antt =====
-- The command line of the "Run VCS CLI Command" panel (gui/src/main.rs): `parse_cli_tokens` and
-- the list of allowed commands.
pub mod Quote
pub mod Words
use dqrvcs.Prelude.{
  ℕ, Bool, true, false, not, ◌&&◌, ◌||◌, List, [], ◌∷◌, ◌++◌, ◌==◌, if◌then◌else◌, is_empty, Result,
  ok, err,
}
use dqrvcs.Text.{Text, codes, is_whitespace, contains}

-- The variables of the loop.
pub record Lexer : Type 0 where
  pub tokens : List Text
  pub current : Text
  pub in_single : Bool
  pub in_double : Bool
  pub escape : Bool

-- `if !current.is_empty() { tokens.push(take(&mut current)) }`
unfoldable pub flush : Lexer → Lexer
flush l =
    if is_empty l.current then l else record l { tokens = l.tokens ++ l.current ∷ []; current = [] }

-- The body of the loop, for one character.
unfoldable pub step : Lexer → ℕ → Lexer
unfolding flush
step l ch =
    if l.escape
    then record l { current = l.current ++ ch ∷ []; escape = false }
    else if ch == b'\\' && not l.in_single
    then record l { escape = true }
    else if ch == b'\'' && not l.in_double
    then record l { in_single = not l.in_single }
    else if ch == b'"' && not l.in_single
    then record l { in_double = not l.in_double }
    else if is_whitespace ch && not l.in_single && not l.in_double
    then flush l
    else record l { current = l.current ++ ch ∷ [] }

unfoldable pub scan : Lexer → Text → Lexer
scan l [] = l
scan l (ch ∷ input) = scan (step l ch) input

abbrev pub initial : Lexer
initial = record { tokens = []; current = []; in_single = false; in_double = false; escape = false }

-- What follows the loop.
unfoldable pub finish : Lexer → Result (List Text)
unfolding flush
finish l =
    if l.escape
    then err (codes "CLI parse error: trailing escape (`\\`)")
    else if l.in_single || l.in_double
    then err (codes "CLI parse error: unclosed quote")
    else ok (flush l).tokens

unfoldable pub parse_cli_tokens : Text → Result (List Text)
unfolding scan step finish
parse_cli_tokens input = finish (scan initial input)

unfoldable pub allowed_vcs_commands : List Text
allowed_vcs_commands =
    codes "help"
    ∷ codes "init"
    ∷ codes "status"
    ∷ codes "log"
    ∷ codes "branch"
    ∷ codes "checkout"
    ∷ codes "stage"
    ∷ codes "unstage"
    ∷ codes "commit"
    ∷ codes "amend"
    ∷ codes "revert"
    ∷ codes "push"
    ∷ codes "pull"
    ∷ codes "squash"
    ∷ codes "peer"
    ∷ codes "op"
    ∷ codes "sync"
    ∷ codes "daemon"
    ∷ codes "consensus"
    ∷ []

unfoldable pub is_allowed_vcs_command : Text → Bool
is_allowed_vcs_command cmd = contains allowed_vcs_commands cmd
