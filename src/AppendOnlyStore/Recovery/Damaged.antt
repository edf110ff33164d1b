-- ===== src/AppendOnlyStore/Recovery/Damaged.antt =====
-- `recover` on a data file in which one byte of a value was changed.
use mini_kvstore.Prelude.{
  ℕ, zero, suc, ◌+◌, ◌-◌, ◌^◌, ◌≤◌, ◌<◌, ◌≡◌, ◌≢◌, refl, sym, ap, ◌∙◌, true, false, Bool-cases, inl,
  inr, Bytes, text, decimal, List, [], ◌∷◌, ◌++◌, All, length, take, drop, length-append,
  take-append_length, drop-append_length, append_assoc, some, ◌==◌, ==_iff, arith,
}
use mini_kvstore.Status.{Status, success, corruption_status}
use mini_kvstore.Result.{fail}
use mini_kvstore.Record.{Record, record_header_size, record_checksum}
use mini_kvstore.Record.Checksum.{record_checksum_value}
use mini_kvstore.AppendOnlyStore.Header.{make_header}
use mini_kvstore.AppendOnlyStore.Header.RoundTrip.{
  IsStorable, header_of, length-make_header, parse_header-make_header,
}
use mini_kvstore.AppendOnlyStore.{
  Faults, IsHealthy, Storage, encode, record_size, readable, ensure_open_locked_lem,
  ensure_open_locked,
}
use mini_kvstore.AppendOnlyStore.Recovery.{
  RecoveryState, raise, initial_state, recover_payload, recover_round, recover_loop, recover_opened,
  recover,
}
use mini_kvstore.AppendOnlyStore.Recovery.Log.{
  encode_all, log_size, length-encode_all, recover_loop_step,
}

-- The status for a record at `position` whose checksum is not the stored one.
abbrev mismatch : ℕ → Status
mismatch position = corruption_status (text "checksum mismatch at byte " ++ decimal position)

-- A record whose value has the byte `b`, and what is in the file: the byte `c` in its place.
module _ (r : Record) (front back : Bytes) (b c : ℕ) (h : IsStorable r)
    (value : r.value ≡ front ++ b ∷ back) (byte : b < 256) (byte' : c < 256) (changed : b ≢ c) where
  abbrev pub damaged : Bytes
  damaged = make_header r ++ (r.key ++ (front ++ c ∷ back))

  length_value : length (front ++ c ∷ back) ≡ length r.value
  length_value =
      length-append front (c ∷ back)
      ∙ sym (length-append front (b ∷ back))
      ∙ sym (ap (λ (v : Bytes). length v) value)

  checksum_differs :
      (record_checksum r.operation r.expires_at_ms r.key (front ++ c ∷ back)
        == record_checksum r.operation r.expires_at_ms r.key r.value)
      ≡ false
  checksum_differs =
      elim (Bool-cases (
        record_checksum r.operation r.expires_at_ms r.key (front ++ c ∷ back)
        == record_checksum r.operation r.expires_at_ms r.key r.value)) [
          | inl same ↦ absurd (
              changed (
                sym (
                  record_checksum_value r.operation r.expires_at_ms c b r.key front back byte' byte
                    (rw value at ((==_iff _ _).0 same)))))
          | inr other ↦ other
        ]

  payload_damaged :
      (now_ms remaining position : ℕ) (rest : Bytes) (state : RecoveryState)
      → record_size r ≤ remaining
      → position + remaining < 2 ^ 64
      → recover_payload now_ms remaining
          (header_of r)
          position
          (r.key ++ ((front ++ c ∷ back) ++ rest))
          state
        ≡ raise (mismatch position)
  unfolding recover_payload
  payload_damaged now_ms remaining position rest state fits small =
      rw
        (
          take-append_length r.key ((front ++ c ∷ back) ++ rest) (length r.key) refl,
          drop-append_length r.key ((front ++ c ∷ back) ++ rest) (length r.key) refl,
          take-append_length (front ++ c ∷ back) rest (length r.value) (sym length_value),
          length_value,
          checksum_differs,
        )
        (ground arith)

  take_header : (rest : Bytes) → take record_header_size (damaged ++ rest) ≡ make_header r
  take_header rest =
      rw append_assoc (take-append_length (make_header r) _ _ (sym (length-make_header r)))

  drop_header :
      (rest : Bytes)
      → drop record_header_size (damaged ++ rest) ≡ r.key ++ ((front ++ c ∷ back) ++ rest)
  drop_header rest =
      rw (append_assoc, drop-append_length (make_header r) _ _ (sym (length-make_header r)))
        (append_assoc r.key (front ++ c ∷ back) rest)

  round_damaged :
      (now_ms total position : ℕ) (rest : Bytes) (state : RecoveryState)
      → position + record_size r ≤ total
      → total < 2 ^ 64
      → recover_round now_ms total position (damaged ++ rest) state ≡ raise (mismatch position)
  unfolding recover_round
  round_damaged now_ms total position rest state fits small =
      rw
        (
          take_header rest,
          length-make_header,
          parse_header-make_header r h,
          drop_header rest,
          payload_damaged now_ms (total - position) position rest state (omega arith) (omega arith),
        )
        (ground arith)

  loop_damaged :
      (now_ms total fuel position : ℕ) (rest : Bytes) (state : RecoveryState)
      → position + record_size r ≤ total
      → total < 2 ^ 64
      → 0 < fuel
      → recover_loop now_ms total fuel position (damaged ++ rest) state ≡ fail (mismatch position)
  unfolding recover_loop
  loop_damaged now_ms total zero position rest state fits small enough = absurd (omega arith)
  loop_damaged now_ms total (suc fuel) position rest state fits small enough =
      ground (arith, round_damaged now_ms total position rest state fits small)

  log_damaged :
      (now_ms : ℕ) (rs : List Record) (total fuel position : ℕ) (rest : Bytes)
      (state : RecoveryState)
      → All IsStorable rs
      → position + log_size rs + record_size r ≤ total
      → total < 2 ^ 64
      → log_size rs + 1 ≤ fuel
      → recover_loop now_ms total fuel position (encode_all rs ++ (damaged ++ rest)) state
        ≡ fail (mismatch (position + log_size rs))
  log_damaged now_ms [] total fuel position rest state hs fits small enough =
      let same : position + 0 ≡ position = omega arith in
      rw same (loop_damaged now_ms total fuel position rest state (omega arith) small (omega arith))
  log_damaged now_ms (q ∷ rs) total zero position rest state hs fits small enough =
      absurd (omega arith)
  log_damaged now_ms (q ∷ rs) total (suc fuel) position rest state hs fits small enough =
      let same : position + record_size q + log_size rs ≡ position + (record_size q + log_size rs) =
        omega arith in
      rw
        (
          append_assoc (encode q) (encode_all rs) (damaged ++ rest),
          recover_loop_step now_ms q hs.0 total fuel position (encode_all rs ++ (damaged ++ rest))
              state (omega arith) small,
          ← same,
        )
        (log_damaged now_ms rs total fuel (position + record_size q) rest _ hs.1 (omega arith) small
          (omega arith))

  module _ (f : Faults) (now_ms : ℕ) (s : Storage) (rs : List Record) (rest : Bytes)
      (healthy : IsHealthy f) (hs : All IsStorable rs)
      (small : log_size rs + record_size r + length rest < 2 ^ 64)
      (content : s.data_file ≡ some (encode_all rs ++ (damaged ++ rest))) where
    length_file :
        length (encode_all rs ++ (damaged ++ rest)) ≡ log_size rs + record_size r + length rest
    length_file = omega (
      arith,
      length-append (encode_all rs) (damaged ++ rest),
      length-append damaged rest,
      length-append (make_header r) (r.key ++ (front ++ c ∷ back)),
      length-append r.key (front ++ c ∷ back),
      length_value,
      length-make_header r,
      length-encode_all rs,
    )

    abbrev opened_storage : Storage
    opened_storage = record s {
      is_open = true;
      data_file = some (encode_all rs ++ (damaged ++ rest));
    }

    opened_damaged : ensure_open_locked f.first s ≡ (opened_storage, success)
    opened_damaged = ensure_open_locked_lem f s healthy ∙ ground arith

    recovered_damaged :
        recover_opened f now_ms opened_storage ≡ (opened_storage, fail (mismatch (log_size rs)))
    unfolding recover_opened readable
    recovered_damaged =
        rw
          (
            healthy.size,
            healthy.read,
            length_file,
            log_damaged now_ms rs (log_size rs + record_size r + length rest)
                (log_size rs + record_size r + length rest) 0 rest initial_state hs (omega arith)
                small (omega arith),
          )
          (let same : 0 + log_size rs ≡ log_size rs = omega arith in rw same refl)

    -- Where one byte of the value of a record was changed to another byte, whatever follows the record
    -- in the file and whatever acceptable records stand before it, the file is shorter than 2 ^ 64 bytes and no
    -- call of the operating system fails: `recover` returns CORRUPTION with the place of the record, and leaves
    -- the file as it is.
    pub recover_damaged : recover f now_ms s ≡ (opened_storage, fail (mismatch (log_size rs)))
    unfolding recover
    recover_damaged = rw (opened_damaged, recovered_damaged)
