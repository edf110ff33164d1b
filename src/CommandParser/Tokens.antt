-- ===== src/CommandParser/Tokens.antt =====
-- `CommandParser::tokenize`: a machine that reads one byte at a time.
use mini_kvstore.Prelude.{
  ℕ, ◌&&◌, ◌||◌, Bool, true, false, not, Bytes, text, List, [], ◌∷◌, ◌++◌, leb, ◌==◌, if◌then◌else◌,
}
use mini_kvstore.Status.{invalid_argument_status}
use mini_kvstore.Result.{Result, succeed, fail}

-- The variables of the loop.
pub record Tokenizer : Type 0 where
  pub tokens : List Bytes
  pub current : Bytes
  pub in_quotes : Bool
  pub escaping : Bool
  pub token_started : Bool

-- std::isspace
abbrev pub is_space : ℕ → Bool
is_space character = character == b' ' || (leb 9 character && leb character 13)

-- `current.push_back(character)` behind an escape.
abbrev pub push_escaped : Tokenizer → ℕ → Tokenizer
push_escaped t character = record t {
  current = t.current ++ character ∷ [];
  escaping = false;
  token_started = true;
}

-- The `switch` behind a backslash.
unfoldable pub step_escape : Tokenizer → ℕ → Result Tokenizer
step_escape t character =
    if character == b'n'
    then succeed (push_escaped t b'\n')
    else if character == b't'
    then succeed (push_escaped t b'\t')
    else if character == b'"' || character == b'\\'
    then succeed (push_escaped t character)
    else fail (invalid_argument_status (text "unsupported escape sequence"))

-- A space outside of quotes.
abbrev pub end_token : Tokenizer → Tokenizer
end_token t =
    if t.token_started
    then record t { tokens = t.tokens ++ t.current ∷ []; current = []; token_started = false }
    else t

-- The body of the loop.
unfoldable pub step : Tokenizer → ℕ → Result Tokenizer
unfolding step_escape
step t character =
    if t.escaping
    then step_escape t character
    else if t.in_quotes && character == b'\\'
    then succeed (record t { escaping = true })
    else if character == b'"'
    then succeed (record t { in_quotes = not t.in_quotes; token_started = true })
    else if not t.in_quotes && is_space character
    then succeed (end_token t)
    else succeed (record t { current = t.current ++ character ∷ []; token_started = true })

-- What follows the loop.
unfoldable pub finish : Tokenizer → Result (List Bytes)
finish t =
    if t.escaping
    then fail (invalid_argument_status (text "unfinished escape sequence"))
    else if t.in_quotes
    then fail (invalid_argument_status (text "missing closing quote"))
    else if t.token_started
    then succeed (t.tokens ++ t.current ∷ [])
    else succeed t.tokens

unfoldable pub run : Tokenizer → Bytes → Result (List Bytes)
run t [] = finish t
run t (character ∷ rest) = elim (step t character) [ fail st ↦ fail st | succeed t' ↦ run t' rest ]

abbrev pub initial : Tokenizer
initial = record {
  tokens = [];
  current = [];
  in_quotes = false;
  escaping = false;
  token_started = false;
}

unfoldable pub tokenize : Bytes → Result (List Bytes)
tokenize input = run initial input
