-- ===== src/Record/Checksum.antt =====
-- The checksums of records that differ in one byte.
use mini_kvstore.Prelude.{
  ℕ, ◌+◌, ◌*◌, ◌%◌, ◌^◌, ◌<◌, ◌≡◌, refl, sym, ap, ◌∙◌, [], ◌∷◌, ◌++◌, Bytes, length, length-append,
  bit_xor-lt, bit_xor_cancel_right, bit_xor_cancel_left, arith,
}
use mini_kvstore.Record.{
  Operation, u32, hash_byte, hash64_loop, hash64, hash_bytes, record_checksum,
}

-- The prime is odd: a product with it can be undone.
undo : (x : ℕ) → x < 2 ^ 32 → u32 (u32 (x * 16777619) * 899433627) ≡ x
undo x small = omega arith

times_prime : (x y : ℕ) → x < 2 ^ 32 → y < 2 ^ 32 → u32 (x * 16777619) ≡ u32 (y * 16777619) → x ≡ y
times_prime x y small small' h =
    sym (undo x small) ∙ ap (λ (r : ℕ). u32 (r * 899433627)) h ∙ undo y small'

hash_byte_small : (hash byte : ℕ) → hash_byte hash byte < 2 ^ 32
unfolding hash_byte
hash_byte_small hash byte = omega arith

hash_byte_cancel :
    (hash hash' byte : ℕ)
    → hash < 2 ^ 32
    → hash' < 2 ^ 32
    → byte < 2 ^ 32
    → hash_byte hash byte ≡ hash_byte hash' byte
    → hash ≡ hash'
unfolding hash_byte
hash_byte_cancel hash hash' byte p p' q h =
    bit_xor_cancel_right (hash + hash') hash hash' byte (omega arith) (omega arith)
      (times_prime _ _ (bit_xor-lt 32 hash byte p q) (bit_xor-lt 32 hash' byte p' q) h)

hash_byte_differs :
    (hash byte byte' : ℕ)
    → hash < 2 ^ 32
    → byte < 2 ^ 32
    → byte' < 2 ^ 32
    → hash_byte hash byte ≡ hash_byte hash byte'
    → byte ≡ byte'
unfolding hash_byte
hash_byte_differs hash byte byte' p q q' h =
    bit_xor_cancel_left (byte + byte') hash byte byte' (omega arith) (omega arith)
      (times_prime _ _ (bit_xor-lt 32 hash byte p q) (bit_xor-lt 32 hash byte' p q') h)

hash_bytes_small : (hash : ℕ) (text : Bytes) → hash < 2 ^ 32 → hash_bytes hash text < 2 ^ 32
unfolding hash_bytes
hash_bytes_small hash [] p = p
hash_bytes_small hash (c ∷ text) p =
    hash_bytes_small (hash_byte hash (c % 256)) text (hash_byte_small hash (c % 256))

hash_bytes_cancel :
    (hash hash' : ℕ) (text : Bytes)
    → hash < 2 ^ 32
    → hash' < 2 ^ 32
    → hash_bytes hash text ≡ hash_bytes hash' text
    → hash ≡ hash'
unfolding hash_bytes
hash_bytes_cancel hash hash' [] p p' h = h
hash_bytes_cancel hash hash' (c ∷ text) p p' h =
    hash_byte_cancel hash hash' (c % 256) p p' (omega arith) (
      hash_bytes_cancel (hash_byte hash (c % 256)) (hash_byte hash' (c % 256)) text
        (hash_byte_small hash (c % 256)) (hash_byte_small hash' (c % 256)) h)

hash_bytes-append :
    (hash : ℕ) (front back : Bytes)
    → hash_bytes hash (front ++ back) ≡ hash_bytes (hash_bytes hash front) back
unfolding hash_bytes
hash_bytes-append hash [] back = refl
hash_bytes-append hash (c ∷ front) back = hash_bytes-append (hash_byte hash (c % 256)) front back

-- One byte of a text determines its hash, if the others are given.
hash_bytes_differs :
    (hash b c : ℕ) (front back : Bytes)
    → hash < 2 ^ 32
    → b < 256
    → c < 256
    → hash_bytes hash (front ++ b ∷ back) ≡ hash_bytes hash (front ++ c ∷ back)
    → b ≡ c
unfolding hash_bytes
hash_bytes_differs hash b c front back p q q' h =
    let before = hash_bytes_small hash front p in
    let same =
      hash_byte_differs (hash_bytes hash front) (b % 256) (c % 256) before (omega arith)
        (omega arith)
        (hash_bytes_cancel _ _ back (hash_byte_small _ _) (hash_byte_small _ _) (
          sym (hash_bytes-append hash front (b ∷ back))
          ∙ h
          ∙ hash_bytes-append hash front (c ∷ back))) in
    omega (arith, same)

hash64_small : (hash value : ℕ) → hash64 hash value < 2 ^ 32
unfolding hash64 hash64_loop
hash64_small hash value = hash_byte_small _ _

-- Two records that differ in one byte of the value have different checksums.
pub record_checksum_value :
    (operation : Operation) (expires_at_ms b c : ℕ) (key front back : Bytes)
    → b < 256
    → c < 256
    → record_checksum operation expires_at_ms key (front ++ b ∷ back)
      ≡ record_checksum operation expires_at_ms key (front ++ c ∷ back)
    → b ≡ c
unfolding record_checksum
record_checksum_value operation expires_at_ms b c key front back q q' h =
    let same : length (front ++ b ∷ back) ≡ length (front ++ c ∷ back) =
      length-append front (b ∷ back) ∙ sym (length-append front (c ∷ back)) in
    hash_bytes_differs _ b c front back (hash_bytes_small _ key (hash64_small _ _)) q q'
      (rw same at h)
