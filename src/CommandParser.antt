-- ===== src/CommandParser.antt =====
-- include/minikv/CommandParser.h and src/CommandParser.cpp: the tokenizer, the time to live and the
-- commands. `std::toupper` and `std::isspace` are those of the C locale, `std::from_chars` the one of
-- `std::int64_t` in base ten.
pub mod Numbers
pub mod Tokens
pub mod Quoting
pub mod Words
pub mod Ttl
pub mod Requests
pub mod Says
pub mod Understood
pub mod Quotes
use mini_kvstore.Prelude.{
  ℕ, ◌+◌, ◌-◌, ◌*◌, ◌/◌, ◌^◌, Bool, true, false, not, ◌&&◌, ◌||◌, Bytes, text, bytes_eq, List, [],
  ◌∷◌, ◌++◌, map, length, get_or, ltb, leb, ◌==◌, if◌then◌else◌, Option, none, some,
}
use mini_kvstore.Status.{Status, success, is_ok, invalid_argument_status}
use mini_kvstore.Result.{Result, succeed, fail}
use mini_kvstore.Record.{is_positive64}
use Numbers.{from_chars_signed}
use Tokens.{tokenize}

pub data CommandType : Type 0 where
  set get delete exists keys stats compact help exit : CommandType

pub record Command : Type 0 where
  pub type : CommandType
  pub key : Bytes
  pub value : Bytes
  pub ttl : Option ℕ

-- std::toupper
abbrev pub to_upper : ℕ → ℕ
to_upper character = if leb b'a' character && leb character b'z' then character - 32 else character

unfoldable pub uppercase : Bytes → Bytes
uppercase text = map to_upper text

-- `std::numeric_limits<std::int64_t>::max() / 1000`
abbrev pub maximum_seconds : ℕ
maximum_seconds = (2 ^ 63 - 1) / 1000

unfoldable pub parse_ttl : Bytes → Result ℕ
parse_ttl argument =
    let parsed = from_chars_signed argument in
    if parsed.failed || not (is_positive64 parsed.word)
    then fail (invalid_argument_status (text "TTL must be a positive integer number of seconds"))
    else if ltb maximum_seconds parsed.word
    then fail (invalid_argument_status (text "TTL is too large"))
    else succeed (parsed.word * 1000)

unfoldable pub require_size : List Bytes → ℕ → Bytes → Status
require_size tokens expected usage =
    if not (length tokens == expected)
    then invalid_argument_status (text "usage: " ++ usage)
    else success

-- `tokens[index]`, of an index that the size has been tested for.
abbrev pub token : List Bytes → ℕ → Bytes
token tokens index = get_or tokens index []

abbrev pub default_command : Command
default_command = record { type = CommandType.help; key = []; value = []; ttl = none }

-- `if (name == "SET")`
unfoldable pub parse_set : List Bytes → Result Command
parse_set tokens =
    if not (length tokens == 3) && not (length tokens == 5)
    then fail (invalid_argument_status (text "usage: SET key value [TTL seconds]"))
    else let command : Command = record {
      type = CommandType.set;
      key = token tokens 1;
      value = token tokens 2;
      ttl = none;
    } in
      if length tokens == 5
      then (if not (bytes_eq (uppercase (token tokens 3)) (text "TTL"))
          then fail (invalid_argument_status (text "usage: SET key value [TTL seconds]"))
          else elim (parse_ttl (token tokens 4)) [
            | fail st ↦ fail st
            | succeed ttl ↦ succeed (record command { ttl = some ttl })
          ])
      else succeed command

-- The commands with one key: GET, DEL and EXISTS.
unfoldable pub parse_key : CommandType → Bytes → List Bytes → Result Command
parse_key type usage tokens =
    let size_status = require_size tokens 2 usage in
    if not (is_ok size_status)
    then fail size_status
    else succeed (record default_command { type = type; key = token tokens 1 })

unfoldable pub parse_keys : List Bytes → Result Command
parse_keys tokens =
    if ltb 2 (length tokens)
    then fail (invalid_argument_status (text "usage: KEYS [prefix]"))
    else succeed (record default_command {
      type = CommandType.keys;
      key = if length tokens == 2 then token tokens 1 else [];
    })

-- The commands with no argument: STATS, COMPACT, HELP and EXIT.
unfoldable pub parse_bare : CommandType → Bytes → List Bytes → Result Command
parse_bare type usage tokens =
    let size_status = require_size tokens 1 usage in
    if not (is_ok size_status)
    then fail size_status
    else succeed (record default_command { type = type })

-- `parse` of the tokens, by the name in upper case.
unfoldable pub parse_named : Bytes → List Bytes → Result Command
parse_named name tokens =
    if bytes_eq name (text "SET")
    then parse_set tokens
    else if bytes_eq name (text "GET")
    then parse_key CommandType.get (text "GET key") tokens
    else if bytes_eq name (text "DEL") || bytes_eq name (text "DELETE")
    then parse_key CommandType.delete (text "DEL key") tokens
    else if bytes_eq name (text "EXISTS")
    then parse_key CommandType.exists (text "EXISTS key") tokens
    else if bytes_eq name (text "KEYS")
    then parse_keys tokens
    else if bytes_eq name (text "STATS")
    then parse_bare CommandType.stats (text "STATS") tokens
    else if bytes_eq name (text "COMPACT")
    then parse_bare CommandType.compact (text "COMPACT") tokens
    else if bytes_eq name (text "HELP")
    then parse_bare CommandType.help (text "HELP") tokens
    else if bytes_eq name (text "EXIT") || bytes_eq name (text "QUIT")
    then parse_bare CommandType.exit (text "EXIT") tokens
    else fail (invalid_argument_status (text "unknown command: " ++ token tokens 0))

unfoldable pub parse : Bytes → Result Command
parse input = elim (tokenize input) [
  | fail st ↦ fail st
  | succeed tokens ↦
      if length tokens == 0
      then fail (invalid_argument_status (text "command is empty"))
      else parse_named (uppercase (token tokens 0)) tokens
]
