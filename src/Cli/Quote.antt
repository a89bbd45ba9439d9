-- ===== src/Cli/Quote.antt =====
-- A printer for token lists, and what the tokenizer reads back.
use dqrvcs.Prelude.{
  ℕ, true, false, not, ◌||◌, List, [], ◌∷◌, ◌++◌, ◌≡◌, ◌∙◌, arith, ◌==◌, if◌then◌else◌, is_empty,
  retain, ok, append-nil, append_assoc,
}
use dqrvcs.Text.{Text, is_whitespace}
use dqrvcs.Cli.{Lexer, flush, step, scan, parse_cli_tokens}

abbrev quote_char : ℕ → Text
quote_char c = if c == b'"' || c == b'\\' then b'\\' ∷ c ∷ [] else c ∷ []

abbrev quote_body : Text → Text
quote_body [] = b'"' ∷ b' ' ∷ []
quote_body (c ∷ cs) = quote_char c ++ quote_body cs

-- Each token between double quotes, and a blank behind it.
abbrev pub quote_all : List Text → Text
quote_all [] = []
quote_all (t ∷ ts) = (b'"' ∷ quote_body t) ++ quote_all ts

-- Between tokens, with these behind.
abbrev between : List Text → Lexer
between ts = record {
  tokens = ts;
  current = [];
  in_single = false;
  in_double = false;
  escape = false;
}

abbrev inside : List Text → Text → Lexer
inside ts t = record {
  tokens = ts;
  current = t;
  in_single = false;
  in_double = true;
  escape = false;
}

abbrev closed : List Text → Text → Lexer
closed ts t = record {
  tokens = ts;
  current = t;
  in_single = false;
  in_double = false;
  escape = false;
}

scan-quote_char :
    (ts : List Text) (t : Text) (c : ℕ) (rest : Text)
    → scan (inside ts t) (quote_char c ++ rest) ≡ scan (inside ts (t ++ c ∷ [])) rest
unfolding scan step
scan-quote_char ts t c rest = ground arith

scan-quote_body :
    (s : Text) (ts : List Text) (t rest : Text)
    → scan (inside ts t) (quote_body s ++ rest) ≡ scan (flush (closed ts (t ++ s))) rest
unfolding scan step is_whitespace
scan-quote_body [] ts t rest = rw append-nil
scan-quote_body (c ∷ cs) ts t rest = rw append_assoc (
    scan-quote_char ts t c (quote_body cs ++ rest)
    ∙ scan-quote_body cs ts (t ++ c ∷ []) rest
    ∙ rw append_assoc)

solid : List Text → List Text
solid ts = retain (λ t. not (is_empty t)) ts

scan-quote_all : (us ts : List Text) → scan (between ts) (quote_all us) ≡ between (ts ++ solid us)
unfolding scan step solid retain flush
scan-quote_all [] ts = rw append-nil
scan-quote_all ([] ∷ us) ts = scan-quote_body [] ts [] (quote_all us) ∙ scan-quote_all us ts
scan-quote_all ((c ∷ cs) ∷ us) ts =
    scan-quote_body (c ∷ cs) ts [] (quote_all us)
    ∙ scan-quote_all us (ts ++ (c ∷ cs) ∷ [])
    ∙ rw append_assoc

-- Quoted tokens are read back in order, whatever blanks, quotes and backslashes they hold, but
-- for the empty ones, which are dropped.
pub parse_cli_tokens-quote_all :
    (ts : List Text) → parse_cli_tokens (quote_all ts) ≡ ok (retain (λ t. not (is_empty t)) ts)
unfolding parse_cli_tokens solid flush
parse_cli_tokens-quote_all ts = rw scan-quote_all
