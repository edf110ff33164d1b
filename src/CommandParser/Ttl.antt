-- ===== src/CommandParser/Ttl.antt =====
-- The time to live: the range of `parseTtl`, and `parseTtl` on numbers in decimal.
use mini_kvstore.Prelude.{
  ℕ, zero, suc, ◌+◌, ◌*◌, ◌/◌, ◌%◌, ◌^◌, ◌≤◌, ◌<◌, ◌≡◌, refl, ◌∙◌, Bool, true, false, Bytes, [],
  ◌∷◌, decimal, decimal_loop, ltb, arith, Bool-cases, inl, inr,
}
use mini_kvstore.Result.{succeed}
use mini_kvstore.CommandParser.{parse_ttl, maximum_seconds}
use mini_kvstore.CommandParser.Numbers.{scan_digits, from_chars_signed}

-- What is accepted is positive and a whole number of seconds, and the product has not wrapped.
pub parse_ttl-bounds :
    (argument : Bytes) (ttl : ℕ)
    → parse_ttl argument ≡ succeed ttl
    → (0 < ttl) × (ttl < 2 ^ 63) × (ttl % 1000 ≡ 0)
unfolding parse_ttl
parse_ttl-bounds argument ttl h = ground arith

-- The digits that `decimal` writes are read back, whatever stands behind them.
pub scan_digits-decimal_loop :
    (fuel n : ℕ) (acc : Bytes) (found : Bool)
    → n < fuel
    → scan_digits found 0 (decimal_loop fuel n acc) ≡ scan_digits true n acc
unfolding decimal_loop
scan_digits-decimal_loop zero n acc found enough = absurd (omega arith)
scan_digits-decimal_loop (suc fuel) n acc found enough = elim (Bool-cases (ltb n 10)) [
  | inl last ↦ rw last (unfold scan_digits in (ground arith))
  | inr more ↦ rw more (
      scan_digits-decimal_loop fuel (n / 10) ((48 + n % 10) ∷ acc) found (ground arith)
      ∙ unfold scan_digits in (ground arith))
]

-- A text with a digit in front has no minus sign.
signed_of_found :
    (argument : Bytes) (n : ℕ)
    → scan_digits false 0 argument ≡ record { found = true; number = n; rest = [] }
    → n < 2 ^ 63
    → from_chars_signed argument ≡ record { failed = false; word = n }
unfolding from_chars_signed
signed_of_found [] n read small = ground (arith, read)
signed_of_found (c ∷ cs) n read small = ground (arith, read)

-- `parseTtl` reads back a number of seconds that is printed in decimal.
pub parse_ttl-decimal :
    (seconds : ℕ)
    → 0 < seconds
    → seconds ≤ maximum_seconds
    → parse_ttl (decimal seconds) ≡ succeed (seconds * 1000)
unfolding parse_ttl decimal
parse_ttl-decimal seconds some_time small =
    let read = scan_digits-decimal_loop (suc seconds) seconds [] false (omega arith) in
    let parsed =
      signed_of_found (decimal seconds) seconds (read ∙ unfold scan_digits in refl) (omega arith) in
    ground (arith, parsed)
