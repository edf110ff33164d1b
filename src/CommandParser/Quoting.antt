-- ===== src/CommandParser/Quoting.antt =====
-- A list of byte strings in writing: each in quotes, with escapes where the tokenizer has them.
use mini_kvstore.Prelude.{
  ℕ, ◌||◌, ◌≡◌, refl, sym, ap, ◌∙◌, true, false, Bytes, List, [], ◌∷◌, ◌++◌, ◌==◌, if◌then◌else◌,
  append_assoc, append-nil, arith,
}
use mini_kvstore.Result.{succeed}
use mini_kvstore.CommandParser.Tokens.{Tokenizer, step, run, finish, initial, tokenize}

-- One byte inside quotes.
abbrev pub quote_byte : ℕ → Bytes
quote_byte c =
    if c == b'\n'
    then b'\\' ∷ b'n' ∷ []
    else if c == b'\t'
    then b'\\' ∷ b't' ∷ []
    else if c == b'"' || c == b'\\'
    then b'\\' ∷ c ∷ []
    else c ∷ []

-- The rest of a quoted string, its closing quote, and what follows.
abbrev pub quoted : Bytes → Bytes → Bytes
quoted [] rest = b'"' ∷ rest
quoted (c ∷ cs) rest = quote_byte c ++ quoted cs rest

-- Strings in quotes, with a space behind each.
abbrev pub quote_all : List Bytes → Bytes
quote_all [] = []
quote_all (s ∷ rest) = b'"' ∷ quoted s (b' ' ∷ quote_all rest)

-- The machine inside quotes, with a part of a token read.
abbrev within : List Bytes → Bytes → Tokenizer
within tokens current = record {
  tokens = tokens;
  current = current;
  in_quotes = true;
  escaping = false;
  token_started = true;
}

-- The machine between two tokens.
abbrev between : List Bytes → Tokenizer
between tokens = record initial { tokens = tokens }

run-quote_byte :
    (tokens : List Bytes) (current : Bytes) (c : ℕ) (rest : Bytes)
    → run (within tokens current) (quote_byte c ++ rest)
      ≡ run (within tokens (current ++ c ∷ [])) rest
unfolding run step
run-quote_byte tokens current c rest = ground arith

run-close :
    (tokens : List Bytes) (current rest : Bytes)
    → run (within tokens current) (b'"' ∷ b' ' ∷ rest) ≡ run (between (tokens ++ current ∷ [])) rest
unfolding run step
run-close tokens current rest = refl

run-quoted :
    (tokens : List Bytes) (s current rest : Bytes)
    → run (within tokens current) (quoted s (b' ' ∷ rest))
      ≡ run (between (tokens ++ (current ++ s) ∷ [])) rest
run-quoted tokens [] current rest = run-close tokens current rest ∙ rw append-nil
run-quoted tokens (c ∷ cs) current rest =
    run-quote_byte tokens current c (quoted cs (b' ' ∷ rest))
    ∙ run-quoted tokens cs (current ++ c ∷ []) rest
    ∙ rw append_assoc

run-open :
    (tokens : List Bytes) (rest : Bytes)
    → run (between tokens) (b'"' ∷ rest) ≡ run (within tokens []) rest
unfolding run step
run-open tokens rest = refl

run-quote_all :
    (tokens strings : List Bytes)
    → run (between tokens) (quote_all strings) ≡ succeed (tokens ++ strings)
run-quote_all tokens [] = unfold run finish in ap succeed (sym (append-nil tokens))
run-quote_all tokens (s ∷ strings) =
    run-open tokens (quoted s (b' ' ∷ quote_all strings))
    ∙ run-quoted tokens s [] (quote_all strings)
    ∙ run-quote_all (tokens ++ s ∷ []) strings
    ∙ ap succeed (append_assoc tokens (s ∷ []) strings)

-- Whatever bytes they hold, quoted strings are read back by `tokenize`, the empty ones included.
pub tokenize-quote_all : (strings : List Bytes) → tokenize (quote_all strings) ≡ succeed strings
unfolding tokenize
tokenize-quote_all strings = run-quote_all [] strings
