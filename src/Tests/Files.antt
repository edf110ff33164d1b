-- ===== src/Tests/Files.antt =====
-- The operations on the data file, on a file with one record.
use mini_kvstore.Prelude.{
  ◌-◌, ◌+◌, ◌≤◌, ◌≡◌, refl, true, some, [], ◌∷◌, ◌++◌, Bytes, arith, take, drop, text, decimal,
}
use mini_kvstore.Status.{corruption_status}
use mini_kvstore.AppendOnlyStore.Recovery.Damaged.{recover_damaged}
use mini_kvstore.Result.{succeed, fail}
use mini_kvstore.Record.{Operation, Record, RecordMetadata}
use mini_kvstore.AppendOnlyStore.{
  encode, append_record_locked, read_value, read_opened, ensure_open_locked, reopen_locked,
  readable,
}
use mini_kvstore.AppendOnlyStore.Header.{make_header, parse_header}
use mini_kvstore.AppendOnlyStore.Header.RoundTrip.{IsStorable, header_of, parse_header-make_header}
use mini_kvstore.AppendOnlyStore.Appending.{Appended, append_record_locked_lem}
use mini_kvstore.AppendOnlyStore.Reading.{read_value_sound}
use mini_kvstore.AppendOnlyStore.Recovery.{
  RecoveryState, recover, recover_opened, finish_recovery, recover_loop, recover_round,
  initial_state,
}
use mini_kvstore.AppendOnlyStore.Recovery.Log.{encode_all, scanned}
use mini_kvstore.AppendOnlyStore.Recovery.Torn.{recover_torn}
use mini_kvstore.AppendOnlyStore.Recovery.Total.{recover_lem, recover_loop-accounts}
use mini_kvstore.AppendOnlyStore.Compaction.{compact}
use mini_kvstore.AppendOnlyStore.Compaction.Replacing.{Replaced, compact-Replaced}
use mini_kvstore.Tests.Fixtures.{disk, disk-IsHealthy, storage_of}

abbrev one_record : Record
one_record = record {
  operation = Operation.set;
  key = 107 ∷ [];
  value = 118 ∷ 119 ∷ [];
  expires_at_ms = 0;
}

one_record-IsStorable : IsStorable one_record
one_record-IsStorable = record {
  key_some = omega arith;
  key_fits = omega arith;
  value_fits = omega arith;
  tombstone = λ e. ground arith;
  expiry_word = omega arith;
}

-- Three bytes that are no header.
abbrev three_bytes : Bytes
three_bytes = 1 ∷ 2 ∷ 3 ∷ []

parse_header-make_header_example :
    parse_header (make_header one_record) ≡ succeed (header_of one_record)
parse_header-make_header_example = parse_header-make_header one_record one_record-IsStorable

append_record_locked_lem_example :
    Appended three_bytes one_record
      (append_record_locked (disk 4) (storage_of three_bytes) one_record)
append_record_locked_lem_example =
    append_record_locked_lem (disk 4) (storage_of three_bytes) one_record three_bytes
      one_record-IsStorable refl

recover_torn_example :
    recover (disk 0) 7 (storage_of (encode_all (one_record ∷ []) ++ take 30 (encode one_record)))
    ≡ (
      record (storage_of (encode_all (one_record ∷ []))) { is_open = true },
      succeed (scanned 7 0 (one_record ∷ []) 30 initial_state),
    )
recover_torn_example =
    recover_torn (disk 0) 7
      (storage_of (encode_all (one_record ∷ []) ++ take 30 (encode one_record))) (one_record ∷ [])
      one_record 30 (disk-IsHealthy 0) (one_record-IsStorable, tt) one_record-IsStorable
      (omega arith) (omega arith) refl

-- `recover` truncates the three bytes.
abbrev emptied : RecoveryState
emptied = record { index = []; valid_records = 0; truncated_bytes = 3 }

emptied_lem : (recover (disk 0) 7 (storage_of three_bytes)).1 ≡ succeed emptied
unfolding ensure_open_locked reopen_locked readable recover recover_opened finish_recovery
    recover_loop recover_round
emptied_lem = refl

recover_lem_example :
    (3 ≤ 3)
    × ((recover (disk 0) 7 (storage_of three_bytes)).0.data_file ≡ some (take (3 - 3) three_bytes))
recover_lem_example =
    recover_lem (disk 0) 7 (storage_of three_bytes) three_bytes emptied refl (omega arith)
      emptied_lem

three_bytes_scan : recover_loop 7 3 3 0 three_bytes initial_state ≡ succeed (emptied, 0)
unfolding recover_loop recover_round
three_bytes_scan = refl

recover_loop-accounts_example : 0 + 3 ≡ 3
recover_loop-accounts_example =
    recover_loop-accounts 7 3 3 0 three_bytes initial_state emptied 0 (omega arith) (omega arith)
      (omega arith) refl three_bytes_scan

-- The last byte of the file.
abbrev last_place : RecordMetadata
last_place = record { record_offset = 0; value_offset = 2; value_size = 1; expires_at_ms = 0 }

last_byte : (read_value (disk 0) (storage_of three_bytes) last_place).1 ≡ succeed (3 ∷ [])
unfolding ensure_open_locked readable read_value read_opened take drop
last_byte = refl

read_value_sound_example : 3 ∷ [] ≡ take 1 (drop 2 three_bytes)
read_value_sound_example =
    read_value_sound (disk 0) (storage_of three_bytes) last_place three_bytes refl (3 ∷ [])
      last_byte

compact-Replaced_example :
    Replaced three_bytes
      (one_record ∷ [])
      (compact (disk 100) (storage_of three_bytes) (one_record ∷ []))
compact-Replaced_example =
    compact-Replaced (disk 100) three_bytes (one_record ∷ []) (storage_of three_bytes) refl
      (one_record-IsStorable, tt) (omega arith)

-- The last byte of the value was changed.
abbrev damaged_file : Bytes
damaged_file = make_header one_record ++ (107 ∷ 118 ∷ 120 ∷ [])

recover_damaged_example : recover (disk 0) 5 (storage_of (damaged_file ++ [])) ≡ (
  record (storage_of (damaged_file ++ [])) { is_open = true },
  fail (corruption_status (text "checksum mismatch at byte " ++ decimal 0)),
)
recover_damaged_example =
    recover_damaged one_record (118 ∷ []) [] 119 120 one_record-IsStorable refl (omega arith)
      (omega arith) (λ e. omega (arith, e)) (disk 0) 5 (storage_of (damaged_file ++ [])) [] []
      (disk-IsHealthy 0) tt (omega arith) refl
