-- ===== src/AppendOnlyStore/Recovery.antt =====
-- `AppendOnlyStore::recover`: the scan of the data file that rebuilds the index, and the cut of an
-- incomplete tail.
pub mod Log
pub mod Torn
pub mod Damaged
pub mod Total
use mini_kvstore.Prelude.{
  ℕ, zero, suc, ◌+◌, ◌-◌, Bool, false, not, Bytes, text, decimal, List, [], ◌++◌, length, take,
  drop, ltb, ◌==◌, if◌then◌else◌, some, bytes_key,
}
use mini_kvstore.UnorderedMap.{assign, erase}
use mini_kvstore.Status.{Status, is_ok, io_error_status, corruption_status}
use mini_kvstore.Result.{Result, succeed, fail}
use mini_kvstore.Record.{RecordMetadata, record_header_size, u64, record_checksum, is_expired}
use mini_kvstore.AppendOnlyStore.Header.{ParsedHeader, parse_header, is_delete}
use mini_kvstore.AppendOnlyStore.{
  Faults, Storage, data_bytes, readable, ensure_open_locked, reopen_locked,
}

abbrev pub Index : Type 0
Index = List (Bytes × RecordMetadata)

pub record RecoveryState : Type 0 where
  pub index : Index
  pub valid_records : ℕ
  pub truncated_bytes : ℕ

-- What one round of the loop of `recover` does: leave the loop by `break` with the state and the
-- position, return an error, or go on from a position with the rest of the stream.
pub data Round : Type 0 where
  stop : RecoveryState → ℕ → Round
  raise : Status → Round
  next : ℕ → Bytes → RecoveryState → Round

-- The change of the index by one valid record at `position`.
unfoldable pub recover_index : ℕ → ℕ → ParsedHeader → Bytes → Index → Index
recover_index now_ms position header key index =
    if is_delete header.operation
    then erase key index
    else if is_expired header.expires_at_ms now_ms
    then erase key index
    else assign key
        (record {
          record_offset = position;
          value_offset = u64 (position + record_header_size + header.key_size);
          value_size = header.value_size;
          expires_at_ms = header.expires_at_ms;
        })
        index

-- A round from the parsed header on; `stream` is what follows the header.
unfoldable pub recover_payload : ℕ → ℕ → ParsedHeader → ℕ → Bytes → RecoveryState → Round
recover_payload now_ms remaining header position stream state =
    let record_bytes : ℕ = u64 (record_header_size + (header.key_size + header.value_size)) in
    if ltb remaining record_bytes
    then stop (record state { truncated_bytes = remaining }) position
    else let key = take header.key_size stream in
      let stream' = drop header.key_size stream in
      let value = take header.value_size stream' in
      if not (length key == header.key_size)
      then raise (io_error_status (text "failed while reading a record key"))
      else if not (length value == header.value_size)
      then raise (io_error_status (text "failed while reading a record value"))
      else if not
          (record_checksum header.operation header.expires_at_ms key value == header.checksum)
      then raise (corruption_status (text "checksum mismatch at byte " ++ decimal position))
      else next (u64 (position + record_bytes)) (drop header.value_size stream') (record state {
        index = recover_index now_ms position header key state.index;
        valid_records = u64 (state.valid_records + 1);
      })

-- A round with `position < totalBytes`.
unfoldable pub recover_round : ℕ → ℕ → ℕ → Bytes → RecoveryState → Round
recover_round now_ms total_bytes position stream state =
    let remaining : ℕ = total_bytes - position in
    if ltb remaining record_header_size
    then stop (record state { truncated_bytes = remaining }) position
    else let header_bytes = take record_header_size stream in
      if not (length header_bytes == record_header_size)
      then stop (record state { truncated_bytes = remaining }) position
      else elim (parse_header header_bytes) [
        | fail s ↦
            raise (
              corruption_status (text "at byte " ++ (decimal position ++ (text ": " ++ s.message))))
        | succeed header ↦
            recover_payload now_ms remaining header position (drop record_header_size stream) state
      ]

-- `while (position < totalBytes)`. A round that goes on moves the position by at least the header's
-- size, so the fuel `totalBytes` is never used up before the loop ends.
unfoldable pub recover_loop : ℕ → ℕ → ℕ → ℕ → Bytes → RecoveryState → Result (RecoveryState × ℕ)
recover_loop now_ms total_bytes zero position stream state = succeed (state, position)
recover_loop now_ms total_bytes (suc fuel) position stream state = elim (ltb position total_bytes) [
  | Bool.false ↦ succeed (state, position)
  | Bool.true ↦ elim (recover_round now_ms total_bytes position stream state) [
    | stop state' position' ↦ succeed (state', position')
    | raise s ↦ fail s
    | next position' stream' state' ↦ recover_loop now_ms total_bytes fuel position' stream' state'
  ]
]

abbrev pub initial_state : RecoveryState
initial_state = record { index = []; valid_records = 0; truncated_bytes = 0 }

-- `recover` after the loop.
unfoldable pub finish_recovery :
    Faults → Storage → Bytes → RecoveryState → ℕ → Storage × Result RecoveryState
finish_recovery f s content state position =
    if ltb 0 state.truncated_bytes
    then (if f.resize_fails
        then (
          record s { is_open = false },
          fail (io_error_status (text "failed to remove incomplete tail: " ++ f.message)),
        )
        else let (s', reopen_status) =
            reopen_locked f.again (record s { data_file = some (take position content) }) in
          if not (is_ok reopen_status) then (s', fail reopen_status) else (s', succeed state))
    else (s, succeed state)

-- What follows a successful `ensureOpenLocked` in `recover`.
unfoldable pub recover_opened : Faults → ℕ → Storage → Storage × Result RecoveryState
recover_opened f now_ms s =
    if f.size_fails
    then (s, fail (io_error_status (text "failed to determine data file size: " ++ f.message)))
    else let content = data_bytes s in
      elim (recover_loop now_ms (length content) (length content) 0 (readable f content)
        initial_state) [
          | fail st ↦ (s, fail st)
          | succeed (state, position) ↦ finish_recovery f s content state position
        ]

unfoldable pub recover : Faults → ℕ → Storage → Storage × Result RecoveryState
recover f now_ms s =
    let (s', open_status) = ensure_open_locked f.first s in
    if not (is_ok open_status) then (s', fail open_status) else recover_opened f now_ms s'
