-- ===== src/AppendOnlyStore/Compaction/Replacing.antt =====
-- What a compaction does to the data file.
use mini_kvstore.Prelude.{
  ℕ, ◌+◌, ◌^◌, ◌<◌, ◌≡◌, refl, sym, ◌∙◌, ◌⊎◌, inl, inr, true, false, Bool-cases, some, none, List,
  [], ◌∷◌, ◌++◌, All, Bytes, bytes_key, length, arith, append_assoc, append-nil, text,
}
use mini_kvstore.UnorderedMap.{assign}
use mini_kvstore.Status.{Status, is_ok, io_error_status}
use mini_kvstore.Result.{Result, succeed, fail, Result-cases}
use mini_kvstore.Record.{Record, RecordMetadata, u64, record_header_size}
use mini_kvstore.AppendOnlyStore.{
  Faults, Storage, Output, data_bytes, write, encode, record_size, metadata_of, write_record,
  ensure_open_locked, reopen_locked,
}
use mini_kvstore.AppendOnlyStore.Header.RoundTrip.{IsStorable}
use mini_kvstore.AppendOnlyStore.Appending.{write_record_lem}
use mini_kvstore.AppendOnlyStore.Reading.{data-ensure_open_locked}
use mini_kvstore.AppendOnlyStore.Recovery.{Index}
use mini_kvstore.AppendOnlyStore.Recovery.Log.{encode_all, log_size}
use mini_kvstore.AppendOnlyStore.Recovery.Total.{reopened}
use mini_kvstore.AppendOnlyStore.Compaction.{
  CompactionState, write_all, replace_file, write_temporary, compact,
}

-- The index that a compaction builds for the records from `position` on.
unfoldable pub indexed : ℕ → List Record → Index → Index
indexed position [] index = index
indexed position (r ∷ rs) index =
    indexed (position + record_size r) rs (assign r.key (metadata_of r position) index)

write_ok :
    (o : Output) (bytes : Bytes)
    → o.good ≡ true
    → (write o bytes).good ≡ true
    → (write o bytes).content ≡ o.content ++ bytes
unfolding write
write_ok o bytes good ok = ground arith

-- A record that could be written stands behind the content.
write_record_ok :
    (o : Output) (r : Record) (offset : ℕ) (metadata : RecordMetadata)
    → IsStorable r
    → o.good ≡ true
    → (write_record o r offset).1 ≡ succeed metadata
    → ((write_record o r offset).0.good ≡ true)
      × ((write_record o r offset).0.content ≡ o.content ++ encode r)
      × (metadata ≡ metadata_of r offset)
write_record_ok o r offset metadata h good ok =
    let wrote = write_record_lem o r offset h in
    elim (Bool-cases (write o (encode r)).good) [
      | inl done ↦
          let same : write_record o r offset
              ≡ (write o (encode r), succeed (metadata_of r offset)) =
            wrote ∙ (rw done refl) in
          rw same (done, write_ok o (encode r) good done, ground (arith, same))
      | inr bad ↦ absurd (ground (arith, wrote))
    ]

write_all_step :
    (o : Output) (index : Index) (offset : ℕ) (r : Record) (rs : List Record)
    (metadata : RecordMetadata)
    → (write_record o r offset).1 ≡ succeed metadata
    → offset + record_size r < 2 ^ 64
    → write_all o index offset (r ∷ rs)
      ≡ write_all
          (write_record o r offset).0
          (assign r.key metadata index)
          (offset + record_size r)
          rs
unfolding write_all
write_all_step o index offset r rs metadata done small =
    let moved : u64 (offset + record_header_size + length r.key + length r.value)
        ≡ offset + record_size r =
      omega arith in
    rw (done, write_all, moved) refl

-- Where all records could be written, they stand behind the content, and the index is theirs.
write_all_ok :
    (o : Output) (index : Index) (offset : ℕ) (rs : List Record) (index' : Index) (offset' : ℕ)
    → All IsStorable rs
    → o.good ≡ true
    → offset + log_size rs < 2 ^ 64
    → (write_all o index offset rs).1 ≡ succeed (index', offset')
    → ((write_all o index offset rs).0.content ≡ o.content ++ encode_all rs)
      × (index' ≡ indexed offset rs index)
      × (offset' ≡ offset + log_size rs)
unfolding write_all indexed
write_all_ok o index offset [] index' offset' hs good small ok =
    (sym (append-nil o.content), ground (arith, ok), ground (arith, ok))
write_all_ok o index offset (r ∷ rs) index' offset' hs good small ok =
    elim (Result-cases (write_record o r offset).1) [
      | inl (metadata, done) ↦
          let (good', content, same) = write_record_ok o r offset metadata hs.0 good done in
          let next = offset + record_size r in
          let step = write_all_step o index offset r rs metadata done (omega arith) in
          let (all, indexes, ends) =
            write_all_ok (write_record o r offset).0 (assign r.key metadata index) next rs index'
              offset' hs.1 good' (omega arith) (rw step at ok) in
          rw step (
            all ∙ (rw content (append_assoc o.content (encode r) (encode_all rs))),
            (rw same at indexes),
            omega (arith, ends),
          )
      | inr (st, failed) ↦ absurd (stopped st failed ok)
    ]
  where
    stopped :
        (st : Status)
        → (write_record o r offset).1 ≡ fail st
        → (write_all o index offset (r ∷ rs)).1 ≡ succeed (index', offset')
        → ⊥
    stopped st failed ok = ground (arith, ok, failed)

-- How a compaction of a data file with the bytes `old` can end.
abbrev pub Replaced : Bytes → List Record → Storage × Result CompactionState → Type 0
Replaced old rs outcome =
    ((state : CompactionState) × (outcome.1 ≡ succeed state)
      × (state.index ≡ indexed 0 rs [])
      × (state.old_file_bytes ≡ length old)
      × (state.new_file_bytes ≡ log_size rs)
      × (outcome.0.data_file ≡ some (encode_all rs)))
    ⊎ ((st : Status) × (outcome.1 ≡ fail st)
        × ((outcome.0.data_file ≡ some old) ⊎ (outcome.0.data_file ≡ some (encode_all rs))))

module _ (f : Faults) (old : Bytes) (rs : List Record) where
  replace_file-Replaced :
      (s : Storage) (state : CompactionState)
      → s.data_file ≡ some old
      → state.index ≡ indexed 0 rs []
      → state.old_file_bytes ≡ length old
      → state.new_file_bytes ≡ log_size rs
      → Replaced old rs (replace_file f s (encode_all rs) state)
  unfolding replace_file
  replace_file-Replaced s state file index before after = elim (Bool-cases f.rename_fails) [
    | inl lost ↦
        let failed = record s { temporary_file = some (encode_all rs) } in
        let kept = reopened f failed old file in
        elim (Bool-cases (is_ok (reopen_locked f.again failed).1)) [
          | inl back ↦ inr (
            io_error_status (text "failed to replace data file after compaction: " ++ f.message),
            ground arith,
            inl (ground (arith, kept)),
          )
          | inr shut ↦
              inr ((reopen_locked f.again failed).1, ground arith, inl (ground (arith, kept)))
        ]
    | inr renamed ↦
        let moved = record s { data_file = some (encode_all rs); temporary_file = none } in
        let kept = reopened f moved (encode_all rs) refl in
        elim (Bool-cases (is_ok (reopen_locked f.again moved).1)) [
          | inl back ↦ inl (state, ground arith, index, before, after, ground (arith, kept))
          | inr shut ↦
              inr ((reopen_locked f.again moved).1, ground arith, inr (ground (arith, kept)))
        ]
  ]

  write_temporary_steps :
      (s : Storage) (index : Index) (offset : ℕ)
      → (write_all (record { content = []; room = f.room; good = true }) [] 0 rs).1
        ≡ succeed (index, offset)
      → f.flush_fails ≡ false
      → write_temporary f s rs
        ≡ replace_file f s
            (write_all (record { content = []; room = f.room; good = true }) [] 0 rs).0.content
            (record {
              index = index;
              old_file_bytes = length (data_bytes s);
              new_file_bytes = offset;
            })
  unfolding write_temporary
  write_temporary_steps s index offset done flushed = ground arith

  compact_steps :
      (s : Storage)
      → is_ok (ensure_open_locked f.first s).1 ≡ true
      → f.size_fails ≡ false
      → f.temporary_fails ≡ false
      → compact f s rs ≡ write_temporary f (ensure_open_locked f.first s).0 rs
  unfolding compact
  compact_steps s opened sized created = ground arith

  write_temporary-Replaced :
      (s : Storage)
      → s.data_file ≡ some old
      → All IsStorable rs
      → log_size rs < 2 ^ 64
      → Replaced old rs (write_temporary f s rs)
  unfolding write_temporary
  write_temporary-Replaced s file hs small =
      let fresh : Output = record { content = []; room = f.room; good = true } in
      elim (Result-cases (write_all fresh [] 0 rs).1) [
        | inl ((index, offset), done) ↦
            let (content, indexes, ends) =
              write_all_ok fresh [] 0 rs index offset hs refl (omega arith) done in
            elim (Bool-cases f.flush_fails) [
              | inl lost ↦ inr (
                io_error_status (text "failed to flush compaction file"),
                ground arith,
                inl (ground arith),
              )
              | inr flushed ↦
                  rw (write_temporary_steps s index offset done flushed, content)
                    (replace_file-Replaced s _ file indexes (rw file refl) (omega (arith, ends)))
            ]
        | inr (st, failed) ↦ inr (st, ground arith, inl (ground arith))
      ]

  -- Whatever calls of the operating system fail in a compaction with acceptable records, whose size is
  -- less than 2 ^ 64: either it succeeds, the data file holds exactly the records, and the index and the
  -- sizes that are returned are those of the old and the new file; or it returns an error, and the
  -- data file holds what it held, or exactly the records, and nothing in between.
  pub compact-Replaced :
      (s : Storage)
      → s.data_file ≡ some old
      → All IsStorable rs
      → log_size rs < 2 ^ 64
      → Replaced old rs (compact f s rs)
  unfolding compact
  compact-Replaced s file hs small =
      let kept = data-ensure_open_locked f.first s old file in
      elim (Bool-cases (is_ok (ensure_open_locked f.first s).1)) [
        | inl opened ↦ elim (Bool-cases f.size_fails) [
          | inl lost ↦ inr (
            io_error_status (text "failed to determine old data file size: " ++ f.message),
            ground arith,
            inl (ground arith),
          )
          | inr sized ↦ elim (Bool-cases f.temporary_fails) [
            | inl lost ↦ inr (
              io_error_status (text "failed to create compaction file"),
              ground arith,
              inl (ground arith),
            )
            | inr created ↦
                rw (compact_steps s opened sized created)
                  (write_temporary-Replaced (ensure_open_locked f.first s).0 kept hs small)
          ]
        ]
        | inr failed ↦ inr ((ensure_open_locked f.first s).1, ground arith, inl (ground arith))
      ]
