-- ===== src/CommandParser/Numbers.antt =====
-- `std::from_chars` in base ten, as the parsers of numbers use it.
use mini_kvstore.Prelude.{
  ℕ, ◌+◌, ◌-◌, ◌*◌, ◌^◌, Bool, true, false, not, ◌&&◌, ◌||◌, Bytes, [], ◌∷◌, leb, ltb, ◌==◌,
  if◌then◌else◌,
}
use mini_kvstore.Record.{u64}

abbrev pub is_digit : ℕ → Bool
is_digit character = leb b'0' character && leb character b'9'

-- What `from_chars` has read: whether there was a digit, the number, and the bytes from `ptr` on.
pub record Scan : Type 0 where
  pub found : Bool
  pub number : ℕ
  pub rest : Bytes

-- The longest run of digits at the front.
unfoldable pub scan_digits : Bool → ℕ → Bytes → Scan
scan_digits found number [] = record { found = found; number = number; rest = [] }
scan_digits found number (character ∷ text) =
    if is_digit character
    then scan_digits true (number * 10 + (character - b'0')) text
    else record { found = found; number = number; rest = character ∷ text }

-- The result of `from_chars` on a whole text: `failed` where `ec` is an error or `ptr` is not the end
-- of the text, and the word that was read.
pub record Parsed : Type 0 where
  pub failed : Bool
  pub word : ℕ

abbrev ends : Scan → Bool
ends s = elim s.rest [ [] ↦ true | ◌∷◌ c r ↦ false ]

-- For `std::int64_t`, with a minus sign.
unfoldable pub from_chars_signed : Bytes → Parsed
unfolding scan_digits
from_chars_signed [] = record { failed = true; word = 0 }
from_chars_signed (character ∷ text) =
    if character == b'-'
    then (let s = scan_digits false 0 text in
        record {
          failed = not s.found || not (ends s) || ltb (2 ^ 63) s.number;
          word = u64 (2 ^ 64 - s.number);
        })
    else (let s = scan_digits false 0 (character ∷ text) in
        record {
          failed = not s.found || not (ends s) || leb (2 ^ 63) s.number;
          word = u64 s.number;
        })

-- For `unsigned long long`.
unfoldable pub from_chars_unsigned : Bytes → Parsed
unfolding scan_digits
from_chars_unsigned text =
    let s = scan_digits false 0 text in
    record { failed = not s.found || not (ends s) || leb (2 ^ 64) s.number; word = u64 s.number }
