-- ===== src/AppendOnlyStore.antt =====
-- include/minikv/AppendOnlyStore.h and src/AppendOnlyStore.cpp: the operations that open the data
-- file, append to it and read values from it. `Header` has the record's header, `Recovery` and
-- `Compaction` the two operations that work on the whole file.
--
-- The object is the part of the file system that it touches (the data file and the temporary file
-- beside it) and whether its stream is open. What the operating system does in one call of an
-- operation is the argument `Faults`: which of its calls fail, and how much it can write or read.
pub mod Header
mod Files
pub mod Appending
pub mod Reading
pub mod Recovery
pub mod Compaction
pub use Files.{
  OpenFaults, Faults, IsHealthy, Storage, Output, data_bytes, opened_file, ensure_open_locked_lem,
  reopen_locked_lem, Disk, new_storage, close_storage,
}
unfoldable pub use Files.{write, readable, ensure_open_locked, reopen_locked}
use mini_kvstore.Prelude.{
  ℕ, ◌+◌, Bool, true, not, ◌&&◌, ◌||◌, Bytes, text, List, [], ◌++◌, length, take, drop, ltb, ◌==◌,
  if◌then◌else◌, Option, none, some,
}
use mini_kvstore.Status.{
  Status, success, is_ok, io_error_status, invalid_argument_status, corruption_status,
}
use mini_kvstore.Result.{Result, succeed, fail, status}
use mini_kvstore.Record.{
  Operation, Record, RecordMetadata, record_header_size, maximum_key_size, maximum_value_size, u32,
  u64,
}
use Header.{make_header, is_delete}

-- The bytes of a record in the data file.
abbrev pub encode : Record → Bytes
encode r = make_header r ++ (r.key ++ r.value)

abbrev pub record_size : Record → ℕ
record_size r = record_header_size + (length r.key + length r.value)

abbrev pub metadata_of : Record → ℕ → RecordMetadata
metadata_of r record_offset = record {
  record_offset = record_offset;
  value_offset = u64 (record_offset + record_header_size + length r.key);
  value_size = u32 (length r.value);
  expires_at_ms = r.expires_at_ms;
}

unfoldable pub write_record : Output → Record → ℕ → Output × Result RecordMetadata
write_record output r record_offset =
    if length r.key == 0 || ltb maximum_key_size (length r.key)
    then (output, fail (invalid_argument_status (text "key size is outside the supported range")))
    else if ltb maximum_value_size (length r.value)
    then (output, fail (invalid_argument_status (text "value exceeds 16 MiB")))
    else if is_delete r.operation && not (length r.value == 0)
    then (output, fail (invalid_argument_status (text "delete record must not contain a value")))
    else let output' = write (write (write output (make_header r)) r.key) r.value in
      if not output'.good
      then (output', fail (io_error_status (text "failed to write append-only record")))
      else (output', succeed (metadata_of r record_offset))

-- AppendOnlyStore::open
unfoldable pub open_storage : Faults → Storage → Storage × Status
open_storage f s = ensure_open_locked f.first s

-- What follows a successful `ensureOpenLocked` in `appendRecordLocked`.
unfoldable pub append_opened : Faults → Storage → Record → Storage × Result RecordMetadata
append_opened f s r =
    if f.seek_fails
    then (s, fail (io_error_status (text "failed to seek to end of data file")))
    else let content = data_bytes s in
      let (output, result) =
        write_record (record { content = content; room = f.room; good = true }) r
          (length content) in
      let s' = record s { data_file = some output.content } in
      elim result [
        | fail st ↦ (s', fail st)
        | succeed metadata ↦
            if f.flush_fails
            then (
              record s { data_file = some (take (length content + f.flushed) output.content) },
              fail (io_error_status (text "failed to flush append-only record")),
            )
            else (s', succeed metadata)
      ]

unfoldable pub append_record_locked : Faults → Storage → Record → Storage × Result RecordMetadata
append_record_locked f s r =
    let (s', open_status) = ensure_open_locked f.first s in
    if not (is_ok open_status) then (s', fail open_status) else append_opened f s' r

unfoldable pub append_set : Faults → Storage → Bytes → Bytes → ℕ → Storage × Result RecordMetadata
append_set f s key value expires_at_ms =
    append_record_locked f s (record {
      operation = Operation.set;
      key = key;
      value = value;
      expires_at_ms = expires_at_ms;
    })

unfoldable pub append_delete : Faults → Storage → Bytes → Storage × Status
append_delete f s key =
    let (s', result) =
      append_record_locked f s
        (record { operation = Operation.delete; key = key; value = []; expires_at_ms = 0 }) in
    (s', status result)

-- What follows a successful `ensureOpenLocked` in `readValue`.
unfoldable pub read_opened : Faults → Storage → RecordMetadata → Result Bytes
read_opened f s metadata =
    if f.seek_fails
    then fail (io_error_status (text "failed to seek to value"))
    else let value =
        take metadata.value_size (drop metadata.value_offset (readable f (data_bytes s))) in
      if not (length value == metadata.value_size)
      then fail (corruption_status (text "value extends beyond the data file"))
      else succeed value

unfoldable pub read_value : Faults → Storage → RecordMetadata → Storage × Result Bytes
read_value f s metadata =
    let (s', open_status) = ensure_open_locked f.first s in
    if not (is_ok open_status) then (s', fail open_status) else (s', read_opened f s' metadata)

-- AppendOnlyStore::fileSize
unfoldable pub file_size : Faults → Storage → ℕ
file_size f s = elim s.data_file [
  | none ↦ 0
  | some content ↦ if f.size_fails then 0 else length content
]
