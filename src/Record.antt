-- ===== src/Record.antt =====
-- include/minikv/Record.h and src/Record.cpp. A `std::int64_t` is the word below 2 ^ 64 that stands
-- for it in two's complement, as the record's header stores it.
pub mod Checksum
use mini_kvstore.Prelude.{
  ℕ, zero, suc, ◌+◌, ◌*◌, ◌/◌, ◌%◌, ◌^◌, Bool, ◌&&◌, [], ◌∷◌, Bytes, length, ltb, leb, bit_xor,
}

pub data Operation : Type 0 where
  set delete : Operation

pub record Record : Type 0 where
  pub operation : Operation
  pub key : Bytes
  pub value : Bytes
  pub expires_at_ms : ℕ

pub record RecordMetadata : Type 0 where
  pub record_offset : ℕ
  pub value_offset : ℕ
  pub value_size : ℕ
  pub expires_at_ms : ℕ

abbrev pub record_magic : ℕ
record_magic = 0x31564B4D

abbrev pub record_version : ℕ
record_version = 1

abbrev pub record_header_size : ℕ
record_header_size = 28

abbrev pub maximum_key_size : ℕ
maximum_key_size = 4 * 1024

abbrev pub maximum_value_size : ℕ
maximum_value_size = 16 * 1024 * 1024

-- The conversions to `std::uint32_t` and `std::uint64_t`.
abbrev pub u32 : ℕ → ℕ
u32 x = x % 2 ^ 32

abbrev pub u64 : ℕ → ℕ
u64 x = x % 2 ^ 64

-- static_cast<std::uint8_t>(operation)
abbrev pub operation_byte : Operation → ℕ
operation_byte set = 1
operation_byte delete = 2

unfoldable pub hash_byte : ℕ → ℕ → ℕ
hash_byte hash byte = u32 (bit_xor hash byte * 16777619)

-- `for (shift = ...; shift < 64; shift += 8)`, with the rounds that are left.
unfoldable pub hash64_loop : ℕ → ℕ → ℕ → ℕ → ℕ
unfolding hash_byte
hash64_loop zero shift hash value = hash
hash64_loop (suc rounds) shift hash value =
    hash64_loop rounds (shift + 8) (hash_byte hash (value / 2 ^ shift % 256)) value

unfoldable pub hash64 : ℕ → ℕ → ℕ
unfolding hash64_loop
hash64 hash value = hash64_loop 8 0 hash value

-- `for (const unsigned char character : text) hashByte(hash, character)`
unfoldable pub hash_bytes : ℕ → Bytes → ℕ
unfolding hash_byte
hash_bytes hash [] = hash
hash_bytes hash (character ∷ rest) = hash_bytes (hash_byte hash (character % 256)) rest

unfoldable pub record_checksum : Operation → ℕ → Bytes → Bytes → ℕ
unfolding hash_byte hash64 hash_bytes
record_checksum operation expires_at_ms key value =
    let hash : ℕ = hash_byte 2166136261 (operation_byte operation) in
    let hash' : ℕ = hash64 (hash64 (hash64 hash expires_at_ms) (length key)) (length value) in
    hash_bytes (hash_bytes hash' key) value

-- `0 < w` and `a <= b` on two's complement words.
abbrev pub is_positive64 : ℕ → Bool
is_positive64 w = ltb 0 w && ltb w (2 ^ 63)

abbrev pub sle64 : ℕ → ℕ → Bool
sle64 a b = leb ((a + 2 ^ 63) % 2 ^ 64) ((b + 2 ^ 63) % 2 ^ 64)

unfoldable pub is_expired : ℕ → ℕ → Bool
is_expired expires_at_ms now_ms = is_positive64 expires_at_ms && sle64 expires_at_ms now_ms
