-- ===== src/AppendOnlyStore/Header/RoundTrip.antt =====
-- `parseHeader` reads back what `makeHeader` wrote, for a record that `writeRecord` accepts.
use mini_kvstore.Prelude.{
  ℕ, ◌+◌, ◌*◌, ◌/◌, ◌%◌, ◌^◌, ◌≤◌, ◌<◌, bit_or, ◌≡◌, refl, [], ◌∷◌, length, Bytes, arith,
}
use native.Mathlib.Nat.{mod-lt, one-le-pow}
use mini_kvstore.Prelude.Bits.{bit_or_shifted, zero-bit_or}
use mini_kvstore.Result.{succeed}
use mini_kvstore.Record.{
  Operation, Record, record_header_size, maximum_key_size, maximum_value_size, record_checksum, u32,
  hash_byte, hash_bytes,
}
use mini_kvstore.AppendOnlyStore.Header.{ParsedHeader, make_header, parse_header, check_header}

-- A record that `writeRecord` accepts, with an expiry that is a 64-bit word.
pub record IsStorable (r : Record) : Type 0 where
  pub key_some : 0 < length r.key
  pub key_fits : length r.key ≤ maximum_key_size
  pub value_fits : length r.value ≤ maximum_value_size
  pub tombstone : r.operation ≡ Operation.delete → length r.value ≡ 0
  pub expiry_word : r.expires_at_ms < 2 ^ 64

-- The `index`-th round of get32 or get64, on what put32 or put64 wrote.
abbrev round : ℕ → ℕ → ℕ → ℕ
round v k value = bit_or value (v / 2 ^ k % 256 % 256 * 2 ^ k)

round_lem : (v k : ℕ) → round v k (v % 2 ^ k) ≡ v % 2 ^ k + v / 2 ^ k % 256 % 256 * 2 ^ k
round_lem v k =
    bit_or_shifted k (v % 2 ^ k) (v / 2 ^ k % 256 % 256) (mod-lt v (one-le-pow k 2 (omega arith)))

-- Two, four and eight rounds put a 16, 32 or 64-bit word together again.
rounds16 : (v : ℕ) → round v 8 (round v 0 0) ≡ v % 2 ^ 16
rounds16 v =
    let first : round v 0 0 ≡ v % 2 ^ 8 = rw zero-bit_or (omega arith) in
    rw first (omega (arith, round_lem v 8))

rounds32 : (v : ℕ) → round v 24 (round v 16 (round v 8 (round v 0 0))) ≡ v % 2 ^ 32
rounds32 v = rw rounds16 (
    let next : round v 16 (v % 2 ^ 16) ≡ v % 2 ^ 24 = omega (arith, round_lem v 16) in
    rw next (omega (arith, round_lem v 24)))

rounds64 :
    (v : ℕ)
    → round v 56
        (round v 48 (round v 40 (round v 32 (round v 24 (round v 16 (round v 8 (round v 0 0)))))))
      ≡ v % 2 ^ 64
rounds64 v = rw rounds32 (
    let next : round v 32 (v % 2 ^ 32) ≡ v % 2 ^ 40 = omega (arith, round_lem v 32) in
    let next' : round v 40 (v % 2 ^ 40) ≡ v % 2 ^ 48 = omega (arith, round_lem v 40) in
    let last : round v 48 (v % 2 ^ 48) ≡ v % 2 ^ 56 = omega (arith, round_lem v 48) in
    rw next (rw next' (rw last (omega (arith, round_lem v 56)))))

hash_bytes-lt : (hash : ℕ) (bytes : Bytes) → hash < 2 ^ 32 → hash_bytes hash bytes < 2 ^ 32
unfolding hash_bytes
hash_bytes-lt hash [] h = h
hash_bytes-lt hash (b ∷ rest) h = hash_bytes-lt (hash_byte hash (b % 256)) rest (omega arith)

pub record_checksum-lt :
    (operation : Operation) (expires_at_ms : ℕ) (key value : Bytes)
    → record_checksum operation expires_at_ms key value < 2 ^ 32
unfolding record_checksum
record_checksum-lt operation expires_at_ms key value =
    hash_bytes-lt _ value (hash_bytes-lt _ key (omega arith))

-- What `parseHeader` reads in the header of the record.
abbrev pub header_of : Record → ParsedHeader
header_of r = record {
  operation = r.operation;
  key_size = length r.key;
  value_size = length r.value;
  expires_at_ms = r.expires_at_ms;
  checksum = record_checksum r.operation r.expires_at_ms r.key r.value;
}

pub length-make_header : (r : Record) → length (make_header r) ≡ record_header_size
unfolding make_header
length-make_header r = refl

check_header_of : (r : Record) → IsStorable r → check_header (header_of r) ≡ succeed (header_of r)
unfolding check_header
check_header_of r h = ground arith

-- The header that `makeHeader` writes for a record that `writeRecord` accepts and whose expiry is a
-- 64-bit word is parsed to the record's operation, sizes, expiry and checksum.
pub parse_header-make_header :
    (r : Record) → IsStorable r → parse_header (make_header r) ≡ succeed (header_of r)
unfolding parse_header make_header
parse_header-make_header r h =
    rw
      (
        rounds32 (u32 (length r.key)),
        rounds32 (u32 (length r.value)),
        rounds64 r.expires_at_ms,
        rounds32 (record_checksum r.operation r.expires_at_ms r.key r.value),
      )
      (ground
        (arith, check_header_of r h, record_checksum-lt r.operation r.expires_at_ms r.key r.value))
