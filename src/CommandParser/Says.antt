-- ===== src/CommandParser/Says.antt =====
-- What a line says, apart from the code that parses it.
use mini_kvstore.Prelude.{
  ℕ, ◌≡◌, refl, ◌∙◌, Bytes, text, bytes_eq, List, [], ◌∷◌, Option, none, some,
}
use mini_kvstore.Result.{succeed}
use mini_kvstore.CommandParser.{
  Command, CommandType, default_command, uppercase, parse_ttl, require_size, parse_set, parse_key,
  parse_keys, parse_bare, parse_named, parse,
}
use mini_kvstore.CommandParser.Tokens.{tokenize}
use mini_kvstore.CommandParser.Requests.{parse_tokens}

abbrev pub with_key : CommandType → Bytes → Command
with_key type key = record default_command { type = type; key = key }

abbrev pub setting : Bytes → Bytes → Option ℕ → Command
setting key value ttl = record { type = CommandType.set; key = key; value = value; ttl = ttl }

-- The tokens say the command: its name in any case, and the arguments it has, no more and no fewer.
pub data Says : List Bytes → Command → Type 0 where
  says_set :
      (name key value : Bytes)
      → uppercase name ≡ text "SET"
      → Says (name ∷ key ∷ value ∷ []) (setting key value none)
  says_set_ttl :
      (name key value word seconds : Bytes) (ttl : ℕ)
      → uppercase name ≡ text "SET"
      → uppercase word ≡ text "TTL"
      → parse_ttl seconds ≡ succeed ttl
      → Says (name ∷ key ∷ value ∷ word ∷ seconds ∷ []) (setting key value (some ttl))
  says_get :
      (name key : Bytes)
      → uppercase name ≡ text "GET"
      → Says (name ∷ key ∷ []) (with_key CommandType.get key)
  says_del :
      (name key : Bytes)
      → uppercase name ≡ text "DEL"
      → Says (name ∷ key ∷ []) (with_key CommandType.delete key)
  says_delete :
      (name key : Bytes)
      → uppercase name ≡ text "DELETE"
      → Says (name ∷ key ∷ []) (with_key CommandType.delete key)
  says_exists :
      (name key : Bytes)
      → uppercase name ≡ text "EXISTS"
      → Says (name ∷ key ∷ []) (with_key CommandType.exists key)
  says_keys :
      (name : Bytes)
      → uppercase name ≡ text "KEYS"
      → Says (name ∷ []) (with_key CommandType.keys [])
  says_keys_with :
      (name prefix : Bytes)
      → uppercase name ≡ text "KEYS"
      → Says (name ∷ prefix ∷ []) (with_key CommandType.keys prefix)
  says_stats :
      (name : Bytes)
      → uppercase name ≡ text "STATS"
      → Says (name ∷ []) (with_key CommandType.stats [])
  says_compact :
      (name : Bytes)
      → uppercase name ≡ text "COMPACT"
      → Says (name ∷ []) (with_key CommandType.compact [])
  says_help :
      (name : Bytes)
      → uppercase name ≡ text "HELP"
      → Says (name ∷ []) (with_key CommandType.help [])
  says_exit :
      (name : Bytes)
      → uppercase name ≡ text "EXIT"
      → Says (name ∷ []) (with_key CommandType.exit [])
  says_quit :
      (name : Bytes)
      → uppercase name ≡ text "QUIT"
      → Says (name ∷ []) (with_key CommandType.exit [])

-- The line has tokens, and they say the command.
abbrev pub Said : Bytes → Command → Type 0
Said input command = (tokens : List Bytes) × (tokenize input ≡ succeed tokens) × Says tokens command

-- What tokens that say a command are parsed to.
pub parse-Says :
    (input : Bytes) (command : Command) (tokens : List Bytes)
    → tokenize input ≡ succeed tokens
    → Says tokens command
    → parse input ≡ succeed command
unfolding parse_named parse_set parse_key parse_keys parse_bare require_size text bytes_eq
parse-Says input command _ h (says_set name key value upper) =
    parse_tokens input name (key ∷ value ∷ []) h ∙ rw upper refl
parse-Says input command _ h (says_set_ttl name key value word seconds ttl upper is_ttl read) =
    parse_tokens input name (key ∷ value ∷ word ∷ seconds ∷ []) h ∙ rw (upper, is_ttl, read) refl
parse-Says input command _ h (says_get name key upper) =
    parse_tokens input name (key ∷ []) h ∙ rw upper refl
parse-Says input command _ h (says_del name key upper) =
    parse_tokens input name (key ∷ []) h ∙ rw upper refl
parse-Says input command _ h (says_delete name key upper) =
    parse_tokens input name (key ∷ []) h ∙ rw upper refl
parse-Says input command _ h (says_exists name key upper) =
    parse_tokens input name (key ∷ []) h ∙ rw upper refl
parse-Says input command _ h (says_keys name upper) = parse_tokens input name [] h ∙ rw upper refl
parse-Says input command _ h (says_keys_with name prefix upper) =
    parse_tokens input name (prefix ∷ []) h ∙ rw upper refl
parse-Says input command _ h (says_stats name upper) = parse_tokens input name [] h ∙ rw upper refl
parse-Says input command _ h (says_compact name upper) =
    parse_tokens input name [] h ∙ rw upper refl
parse-Says input command _ h (says_help name upper) = parse_tokens input name [] h ∙ rw upper refl
parse-Says input command _ h (says_exit name upper) = parse_tokens input name [] h ∙ rw upper refl
parse-Says input command _ h (says_quit name upper) = parse_tokens input name [] h ∙ rw upper refl
