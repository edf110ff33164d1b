-- ===== src/AppendOnlyStore/Header.antt =====
-- The fixed header of a record: the functions of the anonymous namespace of
-- src/AppendOnlyStore.cpp that lay out integers in little-endian order, `makeHeader` and
-- `parseHeader`. A `char` is a byte, and the cast to `unsigned char` is `% 256`.
pub mod RoundTrip
use mini_kvstore.Prelude.{
  ℕ, zero, suc, ◌+◌, ◌*◌, ◌/◌, ◌%◌, ◌^◌, bit_or, Bool, not, ◌&&◌, ◌||◌, Bytes, text, length, set,
  get_or, replicate, ltb, ◌==◌, if◌then◌else◌,
}
use mini_kvstore.Status.{corruption_status}
use mini_kvstore.Result.{Result, succeed, fail}
use mini_kvstore.Record.{
  Operation, Record, record_magic, record_version, record_header_size, maximum_key_size,
  maximum_value_size, u32, u64, operation_byte, record_checksum,
}

pub record ParsedHeader : Type 0 where
  pub operation : Operation
  pub key_size : ℕ
  pub value_size : ℕ
  pub expires_at_ms : ℕ
  pub checksum : ℕ

-- The loops of put16, put32 and put64, with the rounds that are left.
unfoldable pub put_loop : ℕ → Bytes → ℕ → ℕ → ℕ → Bytes
put_loop zero bytes offset index value = bytes
put_loop (suc rounds) bytes offset index value =
    put_loop rounds (set bytes (offset + index) (value / 2 ^ (index * 8) % 256)) offset (index + 1)
      value

abbrev pub put16 : Bytes → ℕ → ℕ → Bytes
put16 bytes offset value = put_loop 2 bytes offset 0 value

abbrev pub put32 : Bytes → ℕ → ℕ → Bytes
put32 bytes offset value = put_loop 4 bytes offset 0 value

abbrev pub put64 : Bytes → ℕ → ℕ → Bytes
put64 bytes offset value = put_loop 8 bytes offset 0 value

-- The loops of get16, get32 and get64.
unfoldable pub get_loop : ℕ → Bytes → ℕ → ℕ → ℕ → ℕ
get_loop zero bytes offset index value = value
get_loop (suc rounds) bytes offset index value =
    get_loop rounds bytes offset (index + 1)
      (bit_or value (get_or bytes (offset + index) 0 % 256 * 2 ^ (index * 8)))

abbrev pub get16 : Bytes → ℕ → ℕ
get16 bytes offset = get_loop 2 bytes offset 0 0

abbrev pub get32 : Bytes → ℕ → ℕ
get32 bytes offset = get_loop 4 bytes offset 0 0

abbrev pub get64 : Bytes → ℕ → ℕ
get64 bytes offset = get_loop 8 bytes offset 0 0

unfoldable pub make_header : Record → Bytes
unfolding put_loop
make_header r =
    let header : Bytes = replicate record_header_size 0 in
    let header : Bytes = put32 header 0 record_magic in
    let header : Bytes = put16 header 4 record_version in
    let header : Bytes = set header 6 (operation_byte r.operation) in
    let header : Bytes = set header 7 0 in
    let header : Bytes = put32 header 8 (u32 (length r.key)) in
    let header : Bytes = put32 header 12 (u32 (length r.value)) in
    let header : Bytes = put64 header 16 r.expires_at_ms in
    put32 header 24 (record_checksum r.operation r.expires_at_ms r.key r.value)

-- static_cast<Operation>(byte), of a byte that has passed the test before it.
abbrev pub operation_of : ℕ → Operation
operation_of byte = if byte == 1 then Operation.set else Operation.delete

-- `operation == Operation::Delete`
abbrev pub is_delete : Operation → Bool
is_delete operation = operation_byte operation == 2

-- The checks of `parseHeader` on the fields that have been read.
unfoldable pub check_header : ParsedHeader → Result ParsedHeader
check_header parsed =
    if parsed.key_size == 0 || ltb maximum_key_size parsed.key_size
    then fail (corruption_status (text "invalid key size in record"))
    else if ltb maximum_value_size parsed.value_size
    then fail (corruption_status (text "invalid value size in record"))
    else if is_delete parsed.operation && not (parsed.value_size == 0)
    then fail (corruption_status (text "delete record contains a value"))
    else succeed parsed

unfoldable pub parse_header : Bytes → Result ParsedHeader
unfolding get_loop check_header
parse_header header =
    if not (get32 header 0 == record_magic)
    then fail (corruption_status (text "record magic does not match MKV1"))
    else if not (get16 header 4 == record_version)
    then fail (corruption_status (text "unsupported record version"))
    else let operation_byte : ℕ = get_or header 6 0 % 256 in
      if not (operation_byte == 1) && not (operation_byte == 2)
      then fail (corruption_status (text "unknown record operation"))
      else check_header (record {
        operation = operation_of operation_byte;
        key_size = get32 header 8;
        value_size = get32 header 12;
        expires_at_ms = get64 header 16;
        checksum = get32 header 24;
      })
