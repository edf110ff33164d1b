-- ===== src/Tests/Parser.antt =====
-- The parser of the command line on small inputs.
use mini_kvstore.Prelude.{
  ◌≡◌, ◌↔◌, bytes_eq, false, refl, ◌*◌, ◌<◌, ◌%◌, ◌^◌, Bytes, text, decimal, some, [], ◌∷◌, List,
  arith,
}
use mini_kvstore.Result.{succeed, fail}
use mini_kvstore.Record.{is_expired}
use mini_kvstore.KeyValueStore.{expiry}
use mini_kvstore.KeyValueStore.Expiry.{is_expired-expiry}
use mini_kvstore.Status.{invalid_argument_status}
use mini_kvstore.CommandParser.{
  CommandType, maximum_seconds, parse_ttl, parse, parse_named, parse_set, uppercase,
}
use mini_kvstore.CommandParser.Quotes.{IsClosed, outside, tokenize-IsClosed}
use mini_kvstore.CommandParser.Numbers.{from_chars_signed}
use mini_kvstore.CommandParser.Tokens.{tokenize, run, step, finish}
use mini_kvstore.CommandParser.Quoting.{quote_all, tokenize-quote_all}
use mini_kvstore.CommandParser.Words.{tokenize-words}
use mini_kvstore.CommandParser.Ttl.{parse_ttl-bounds, parse_ttl-decimal}
use mini_kvstore.CommandParser.Requests.{Request, line_of, parse-line_of}
use mini_kvstore.CommandParser.Understood.{Understood, parse-Understood}

-- Quotes, a line break and an empty string.
abbrev strings : List Bytes
strings = (b'a' ∷ b' ' ∷ b'"' ∷ []) ∷ [] ∷ (b'\n' ∷ b'\\' ∷ []) ∷ []

tokenize-quote_all_example : tokenize (quote_all strings) ≡ succeed strings
tokenize-quote_all_example = tokenize-quote_all strings

-- Two spaces in front and a tab between the words.
abbrev plain : Bytes
plain = b' ' ∷ b' ' ∷ b'a' ∷ b'\\' ∷ b'\t' ∷ b'b' ∷ []

tokenize-words_example : tokenize plain ≡ succeed ((b'a' ∷ b'\\' ∷ []) ∷ (b'b' ∷ []) ∷ [])
tokenize-words_example = tokenize-words plain (refl, (refl, (refl, (refl, (refl, (refl, tt))))))

parse_ttl-bounds_example : (0 < 60000) × (60000 < 2 ^ 63) × (60000 % 1000 ≡ 0)
unfolding parse_ttl from_chars_signed
parse_ttl-bounds_example = parse_ttl-bounds (b'6' ∷ b'0' ∷ []) 60000 refl

parse_ttl-decimal_example : parse_ttl (decimal 60) ≡ succeed 60000
parse_ttl-decimal_example = parse_ttl-decimal 60 (omega arith) (omega arith)

parse-line_of_example :
    parse (line_of (Request.set (b'k' ∷ []) [] (some 60)))
    ≡ succeed (record { type = CommandType.set; key = b'k' ∷ []; value = []; ttl = some 60000 })
parse-line_of_example =
    parse-line_of (Request.set (b'k' ∷ []) [] (some 60)) (omega arith, omega arith)

-- A quote that is not closed.
unclosed :
    tokenize (b'"' ∷ b'a' ∷ []) ≡ fail (invalid_argument_status (text "missing closing quote"))
unfolding tokenize run step finish text
unclosed = refl

-- A name in mixed case.
abbrev asking : Bytes
asking = b'g' ∷ b'E' ∷ b't' ∷ b' ' ∷ b'k' ∷ []

parse-Understood_example : Understood asking (parse asking)
parse-Understood_example = parse-Understood asking

-- SET with a word too many is refused.
too_many :
    parse (b's' ∷ b'e' ∷ b't' ∷ b' ' ∷ b'k' ∷ b' ' ∷ b'v' ∷ b' ' ∷ b'w' ∷ [])
    ≡ fail (invalid_argument_status (text "usage: SET key value [TTL seconds]"))
unfolding parse parse_named parse_set uppercase bytes_eq tokenize run step finish text
too_many = refl

tokenize-IsClosed_example :
    ((tokens : List Bytes) × (tokenize (b'a' ∷ b'"' ∷ b' ' ∷ b'"' ∷ []) ≡ succeed tokens))
    ↔ IsClosed outside (b'a' ∷ b'"' ∷ b' ' ∷ b'"' ∷ [])
tokenize-IsClosed_example = tokenize-IsClosed (b'a' ∷ b'"' ∷ b' ' ∷ b'"' ∷ [])

-- A time to live that the parser accepts, with a clock of the year 2026, wraps around.
is_expired-expiry_example :
    is_expired (expiry 1780000000000 (some (maximum_seconds * 1000))) (2 ^ 62) ≡ false
is_expired-expiry_example =
    is_expired-expiry 1780000000000 (maximum_seconds * 1000) (2 ^ 62) refl (omega arith)
      (omega arith)
