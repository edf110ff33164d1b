-- ===== src/AppendOnlyStore/Compaction.antt =====
-- `AppendOnlyStore::compact`: the live records are written to the temporary file, which then takes
-- the place of the data file.
pub mod Replacing
use mini_kvstore.Prelude.{
  ℕ, ◌+◌, true, not, Bytes, text, List, [], ◌∷◌, ◌++◌, length, take, if◌then◌else◌, none, some,
  bytes_key,
}
use mini_kvstore.UnorderedMap.{assign}
use mini_kvstore.Status.{is_ok, io_error_status}
use mini_kvstore.Result.{Result, succeed, fail}
use mini_kvstore.Record.{Record, record_header_size, u64}
use mini_kvstore.AppendOnlyStore.{
  Faults, Storage, Output, data_bytes, write_record, ensure_open_locked, reopen_locked,
}
use mini_kvstore.AppendOnlyStore.Recovery.{Index}

pub record CompactionState : Type 0 where
  pub index : Index
  pub old_file_bytes : ℕ
  pub new_file_bytes : ℕ

-- The loop over `liveRecords`: the output, and the index and the offset after the last record.
unfoldable pub write_all : Output → Index → ℕ → List Record → Output × Result (Index × ℕ)
write_all output index offset [] = (output, succeed (index, offset))
write_all output index offset (r ∷ records) =
    let (output', result) = write_record output r offset in
    elim result [
      | fail st ↦ (output', fail st)
      | succeed metadata ↦
          write_all output' (assign r.key metadata index)
            (u64 (offset + record_header_size + length r.key + length r.value)) records
    ]

-- std::filesystem::remove(temporaryPath, removeError), whose error is ignored.
abbrev pub remove_temporary : Faults → Storage → Storage
remove_temporary f s = if f.remove_fails then s else record s { temporary_file = none }

-- From the closing of the temporary file, which holds `content`, to the end.
unfoldable pub replace_file :
    Faults → Storage → Bytes → CompactionState → Storage × Result CompactionState
replace_file f s content state =
    if f.rename_fails
    then (let (s', reopen_status) =
          reopen_locked f.again (record s { temporary_file = some content }) in
        (
          s',
          (if not (is_ok reopen_status)
              then fail reopen_status
              else fail (
                  io_error_status
                    (text "failed to replace data file after compaction: " ++ f.message))),
        ))
    else let (s', reopen_status) =
        reopen_locked f.again (record s { data_file = some content; temporary_file = none }) in
      (s', (if not (is_ok reopen_status) then fail reopen_status else succeed state))

-- What follows the creation of the temporary file.
unfoldable pub write_temporary : Faults → Storage → List Record → Storage × Result CompactionState
write_temporary f s live_records =
    let (output, result) =
      write_all (record { content = []; room = f.room; good = true }) [] 0 live_records in
    let written = record s { temporary_file = some output.content } in
    elim result [
      | fail st ↦ (remove_temporary f written, fail st)
      | succeed (index, offset) ↦
          if f.flush_fails
          then (
            remove_temporary f (record s { temporary_file = some (take f.flushed output.content) }),
            fail (io_error_status (text "failed to flush compaction file")),
          )
          else replace_file f s output.content (record {
            index = index;
            old_file_bytes = length (data_bytes s);
            new_file_bytes = offset;
          })
    ]

unfoldable pub compact : Faults → Storage → List Record → Storage × Result CompactionState
compact f s live_records =
    let (s', open_status) = ensure_open_locked f.first s in
    if not (is_ok open_status)
    then (s', fail open_status)
    else if f.size_fails
    then (s', fail (io_error_status (text "failed to determine old data file size: " ++ f.message)))
    else if f.temporary_fails
    then (remove_temporary f s', fail (io_error_status (text "failed to create compaction file")))
    else write_temporary f s' live_records
