-- ===== src/AppendOnlyStore/Appending.antt =====
-- What an append does to the data file, with every call of the operating system that can fail.
use mini_kvstore.Prelude.{
  ◌+◌, leb, leb→le, ℕ, ◌-◌, ◌≤◌, ◌<◌, ◌≡◌, refl, sym, ap, ◌∙◌, ◌⊎◌, inl, inr, true, false, some,
  Bytes, ◌++◌, length, take, arith, append_assoc, append-nil, text, take-append_le, take-append_ge,
  length-append, Bool-cases, if◌then◌else◌, take_of_length-le,
}
use mini_kvstore.Status.{Status, is_ok, io_error_status}
use mini_kvstore.Result.{Result, succeed, fail}
use mini_kvstore.Record.{Record, RecordMetadata}
use mini_kvstore.AppendOnlyStore.Header.{make_header}
use mini_kvstore.AppendOnlyStore.Header.RoundTrip.{IsStorable, length-make_header}
use mini_kvstore.AppendOnlyStore.{
  Faults, IsHealthy, Storage, Output, write, encode, record_size, metadata_of, write_record,
  append_opened, append_record_locked, ensure_open_locked, ensure_open_locked_lem,
}
use mini_kvstore.AppendOnlyStore.Reading.{data-ensure_open_locked}

pub length-encode : (r : Record) → length (encode r) ≡ record_size r
length-encode r = omega (
  arith,
  length-append (make_header r) (r.key ++ r.value),
  length-make_header r,
  length-append r.key r.value,
)

-- Two writes in a row are one.
pub write-append : (o : Output) (a b : Bytes) → write (write o a) b ≡ write o (a ++ b)
unfolding write
write-append o a b = ground (
  arith,
  length-append a b,
  append_assoc o.content a b,
  append_assoc o.content a (take (o.room - length a) b),
  take-append_le o.room a b,
  take-append_ge o.room a b,
)

-- The state of the output after a write that may have stopped somewhere.
pub write_cases :
    (content bytes : Bytes) (room : ℕ)
    → let o = write (record { content = content; room = room; good = true }) bytes in
      ((o.good ≡ true) × (o.content ≡ content ++ bytes))
      ⊎ ((o.good ≡ false) × (room < length bytes) × (o.content ≡ content ++ take room bytes))
unfolding write
write_cases content bytes room = ground arith

-- An accepted record is written as one block of bytes.
pub write_record_lem :
    (o : Output) (r : Record) (record_offset : ℕ)
    → IsStorable r
    → write_record o r record_offset ≡ (
        if (write o (encode r)).good
        then (write o (encode r), succeed (metadata_of r record_offset))
        else (
          write o (encode r),
          fail (io_error_status (text "failed to write append-only record")),
        ))
unfolding write_record
write_record_lem o r record_offset h = ground (
  arith,
  write-append o (make_header r) r.key,
  write-append o (make_header r ++ r.key) r.value,
  append_assoc (make_header r) r.key r.value,
)

-- How an append of `r` to a file can end: the record stands behind the content and its metadata is
-- returned, or an error is returned and some part of the record stands there, none or all included.
abbrev pub Appended : Bytes → Record → Storage × Result RecordMetadata → Type 0
Appended content r outcome =
    ((outcome.1 ≡ succeed (metadata_of r (length content)))
      × (outcome.0.data_file ≡ some (content ++ encode r)))
    ⊎ ((st : Status) × (n : ℕ) × (outcome.1 ≡ fail st)
        × (is_ok st ≡ false)
        × (n ≤ record_size r)
        × (outcome.0.data_file ≡ some (content ++ take n (encode r))))

-- The bytes of the record that reach the file when the flush fails.
flushed_part :
    (flushed : ℕ) (content : Bytes) (r : Record)
    → (n : ℕ) × (n ≤ record_size r)
      × (take (length content + flushed) (content ++ encode r) ≡ content ++ take n (encode r))
flushed_part flushed content r =
    let behind : length content + flushed - length content ≡ flushed = omega arith in
    let past : take (length content + flushed) (content ++ encode r)
        ≡ content ++ take flushed (encode r) =
      take-append_ge (length content + flushed) content (encode r) (omega arith)
      ∙ ap (λ (n : ℕ). content ++ take n (encode r)) behind in
    elim (Bool-cases (leb flushed (record_size r))) [
      | inl some_of ↦ (flushed, leb→le flushed (record_size r) some_of, past)
      | inr all_of ↦
          let whole = take_of_length-le flushed (encode r) (ground (arith, length-encode r)) in
          let same =
            take_of_length-le (record_size r) (encode r) (omega (arith, length-encode r)) in
          (record_size r, omega arith, past ∙ ap (λ (t : Bytes). content ++ t) (whole ∙ sym same))
    ]

append_opened_lem :
    (f : Faults) (s : Storage) (r : Record) (content : Bytes)
    → IsStorable r
    → s.data_file ≡ some content
    → Appended content r (append_opened f s r)
unfolding append_opened
append_opened_lem f s r content h file =
    let fresh : Output = record { content = content; room = f.room; good = true } in
    let wrote = write_record_lem fresh r (length content) h in
    elim (Bool-cases f.seek_fails) [
      | inl lost ↦ rw lost (
          inr (
            _,
            0,
            refl,
            refl,
            omega arith,
            unfold take in (file ∙ ap some (sym (append-nil content))),
          ))
      | inr sought ↦ elim (write_cases content (encode r) f.room) [
        | inl (good, written) ↦ elim (Bool-cases f.flush_fails) [
          | inl lost ↦
              let (n, le, part) = flushed_part f.flushed content r in
              inr (
                io_error_status (text "failed to flush append-only record"),
                n,
                ground (arith, wrote),
                refl,
                le,
                ground (arith, wrote, part),
              )
          | inr flushed ↦ inl (ground (arith, wrote), ground (arith, wrote))
        ]
        | inr (bad, short, part) ↦ inr (
          io_error_status (text "failed to write append-only record"),
          f.room,
          ground (arith, wrote),
          refl,
          omega (arith, length-encode r),
          ground (arith, wrote),
        )
      ]
    ]

-- Whatever calls of the operating system fail in the append of an acceptable record to a data file:
-- either the metadata of a record at the end of the file are returned and the record stands there, or
-- an error is returned and the first bytes of the record, from none to all, stand there; what was in
-- the file before stays in front.
pub append_record_locked_lem :
    (f : Faults) (s : Storage) (r : Record) (content : Bytes)
    → IsStorable r
    → s.data_file ≡ some content
    → Appended content r (append_record_locked f s r)
unfolding append_record_locked
append_record_locked_lem f s r content h file =
    let kept = data-ensure_open_locked f.first s content file in
    elim (Bool-cases (is_ok (ensure_open_locked f.first s).1)) [
      | inl opened ↦
          rw opened (append_opened_lem f (ensure_open_locked f.first s).0 r content h kept)
      | inr failed ↦ rw failed (
          inr (
            (ensure_open_locked f.first s).1,
            0,
            refl,
            failed,
            omega arith,
            unfold take in (kept ∙ ap some (sym (append-nil content))),
          ))
    ]

append_opened_healthy :
    (f : Faults) (s : Storage) (r : Record) (content : Bytes)
    → IsStorable r
    → s.data_file ≡ some content
    → IsHealthy f
    → record_size r ≤ f.room
    → (append_opened f s r).1 ≡ succeed (metadata_of r (length content))
unfolding append_opened
append_opened_healthy f s r content h file healthy room =
    let fresh : Output = record { content = content; room = f.room; good = true } in
    let wrote = write_record_lem fresh r (length content) h in
    elim (write_cases content (encode r) f.room) [
      | inl (good, written) ↦ ground (arith, wrote)
      | inr (bad, short, part) ↦ absurd (omega (arith, length-encode r))
    ]

-- Where nothing fails and there is room, the append succeeds.
pub append_record_locked_healthy :
    (f : Faults) (s : Storage) (r : Record) (content : Bytes)
    → IsStorable r
    → s.data_file ≡ some content
    → IsHealthy f
    → record_size r ≤ f.room
    → (append_record_locked f s r).1 ≡ succeed (metadata_of r (length content))
unfolding append_record_locked
append_record_locked_healthy f s r content h file healthy room =
    rw (ensure_open_locked_lem f s healthy)
      (append_opened_healthy f _ r content h (ground arith) healthy room)
