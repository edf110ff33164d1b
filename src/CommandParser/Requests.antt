-- ===== src/CommandParser/Requests.antt =====
-- The commands that `parse` is to return, and how each is written.
use mini_kvstore.Prelude.{
  ℕ, ◌*◌, ◌≤◌, ◌<◌, ◌≡◌, refl, ◌∙◌, Bytes, text, decimal, bytes_eq, List, [], ◌∷◌, Option, none,
  some, arith,
}
use mini_kvstore.Result.{succeed}
use mini_kvstore.CommandParser.{
  Command, CommandType, default_command, maximum_seconds, uppercase, require_size, parse_set,
  parse_key, parse_keys, parse_bare, parse_named, parse,
}
use mini_kvstore.CommandParser.Tokens.{tokenize}
use mini_kvstore.CommandParser.Quoting.{quote_all, tokenize-quote_all}
use mini_kvstore.CommandParser.Ttl.{parse_ttl-decimal}

-- A command with the arguments that its type has; a time to live is in seconds.
pub data Request : Type 0 where
  set : Bytes → Bytes → Option ℕ → Request
  get delete exists keys : Bytes → Request
  stats compact help exit : Request

abbrev with_key : CommandType → Bytes → Command
with_key type key = record default_command { type = type; key = key }

abbrev bare : CommandType → Command
bare type = record default_command { type = type }

-- The command that `parse` is to return.
abbrev pub command_of : Request → Command
command_of (Request.set key value none) = record {
  type = CommandType.set;
  key = key;
  value = value;
  ttl = none;
}
command_of (Request.set key value (some seconds)) = record {
  type = CommandType.set;
  key = key;
  value = value;
  ttl = some (seconds * 1000);
}
command_of (Request.get key) = with_key CommandType.get key
command_of (Request.delete key) = with_key CommandType.delete key
command_of (Request.exists key) = with_key CommandType.exists key
command_of (Request.keys prefix) = with_key CommandType.keys prefix
command_of Request.stats = bare CommandType.stats
command_of Request.compact = bare CommandType.compact
command_of Request.help = bare CommandType.help
command_of Request.exit = bare CommandType.exit

-- The words of the command.
abbrev pub words_of : Request → List Bytes
words_of (Request.set key value none) = text "SET" ∷ key ∷ value ∷ []
words_of (Request.set key value (some seconds)) =
    text "SET" ∷ key ∷ value ∷ text "TTL" ∷ decimal seconds ∷ []
words_of (Request.get key) = text "GET" ∷ key ∷ []
words_of (Request.delete key) = text "DEL" ∷ key ∷ []
words_of (Request.exists key) = text "EXISTS" ∷ key ∷ []
words_of (Request.keys prefix) = text "KEYS" ∷ prefix ∷ []
words_of Request.stats = text "STATS" ∷ []
words_of Request.compact = text "COMPACT" ∷ []
words_of Request.help = text "HELP" ∷ []
words_of Request.exit = text "EXIT" ∷ []

-- A line that says the request, with every word in quotes.
abbrev pub line_of : Request → Bytes
line_of q = quote_all (words_of q)

abbrev pub IsWritable : Request → Type 0
IsWritable (Request.set key value (some seconds)) = (0 < seconds) × (seconds ≤ maximum_seconds)
IsWritable _ = Unit

pub parse_tokens :
    (input first : Bytes) (rest : List Bytes)
    → tokenize input ≡ succeed (first ∷ rest)
    → parse input ≡ parse_named (uppercase first) (first ∷ rest)
unfolding parse
parse_tokens input first rest h = ground arith

parse_words :
    (first : Bytes) (rest : List Bytes)
    → parse (quote_all (first ∷ rest)) ≡ parse_named (uppercase first) (first ∷ rest)
parse_words first rest =
    parse_tokens (quote_all (first ∷ rest)) first rest (tokenize-quote_all (first ∷ rest))

-- Every request with a time to live in range, whatever bytes its key and value hold, is parsed from
-- its line to its command.
pub parse-line_of : (q : Request) → IsWritable q → parse (line_of q) ≡ succeed (command_of q)
unfolding parse_named parse_set parse_key parse_keys parse_bare require_size uppercase text bytes_eq
parse-line_of (Request.set key value none) h = parse_words (text "SET") (key ∷ value ∷ []) ∙ refl
parse-line_of (Request.set key value (some seconds)) h =
    parse_words (text "SET") (key ∷ value ∷ text "TTL" ∷ decimal seconds ∷ [])
    ∙ rw (parse_ttl-decimal seconds h.0 h.1, parse_named) refl
parse-line_of (Request.get key) h = parse_words (text "GET") (key ∷ []) ∙ refl
parse-line_of (Request.delete key) h = parse_words (text "DEL") (key ∷ []) ∙ refl
parse-line_of (Request.exists key) h = parse_words (text "EXISTS") (key ∷ []) ∙ refl
parse-line_of (Request.keys prefix) h = parse_words (text "KEYS") (prefix ∷ []) ∙ refl
parse-line_of Request.stats h = parse_words (text "STATS") [] ∙ refl
parse-line_of Request.compact h = parse_words (text "COMPACT") [] ∙ refl
parse-line_of Request.help h = parse_words (text "HELP") [] ∙ refl
parse-line_of Request.exit h = parse_words (text "EXIT") [] ∙ refl
