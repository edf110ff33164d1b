-- ===== src/AppendOnlyStore/Recovery/Log.antt =====
-- A data file as a sequence of records, and what the loop of `recover` does on the bytes of a log
-- whose last record may be cut.
use mini_kvstore.Prelude.{
  ℕ, zero, suc, ◌+◌, ◌-◌, ◌^◌, ◌≤◌, ◌<◌, ◌≡◌, refl, sym, Bool-cases, inl, inr, Bytes, List, [], ◌∷◌,
  ◌++◌, All, length, take, drop, length-append, take-append_length, drop-append_length,
  append_assoc, take-take_le, if◌then◌else◌, arith, bytes_key, ltb,
}
use mini_kvstore.UnorderedMap.{assign, erase}
use mini_kvstore.Result.{succeed}
use mini_kvstore.Record.{Operation, Record, record_header_size, u64, is_expired}
use mini_kvstore.AppendOnlyStore.Header.{make_header}
use mini_kvstore.AppendOnlyStore.Header.RoundTrip.{
  IsStorable, header_of, length-make_header, parse_header-make_header,
}
use mini_kvstore.AppendOnlyStore.{encode, record_size, metadata_of}
use mini_kvstore.AppendOnlyStore.Appending.{length-encode}
use mini_kvstore.AppendOnlyStore.Recovery.{
  Index, RecoveryState, stop, next, recover_index, recover_payload, recover_round, recover_loop,
}

-- The data file of a log.
abbrev pub encode_all : List Record → Bytes
encode_all [] = []
encode_all (r ∷ rs) = encode r ++ encode_all rs

abbrev pub log_size : List Record → ℕ
log_size [] = 0
log_size (r ∷ rs) = record_size r + log_size rs

-- The index after one more record of the log, which stands at `position`.
abbrev pub apply_record : ℕ → ℕ → Record → Index → Index
apply_record now_ms position r index = elim r.operation [
  | Operation.delete ↦ erase r.key index
  | Operation.set ↦
      if is_expired r.expires_at_ms now_ms
      then erase r.key index
      else assign r.key (metadata_of r position) index
]

-- The index that a log stands for at the time `now_ms`, from the position of its first record on.
unfoldable pub replay : ℕ → ℕ → List Record → Index → Index
replay now_ms position [] index = index
replay now_ms position (r ∷ rs) index =
    replay now_ms (position + record_size r) rs (apply_record now_ms position r index)

pub length-encode_all : (rs : List Record) → length (encode_all rs) ≡ log_size rs
length-encode_all [] = refl
length-encode_all (r ∷ rs) =
    omega (arith, length-append (encode r) (encode_all rs), length-encode r, length-encode_all rs)

recover_index-apply_record :
    (now_ms position : ℕ) (r : Record) (index : Index)
    → IsStorable r
    → recover_index now_ms position (header_of r) r.key index ≡ apply_record now_ms position r index
unfolding recover_index
recover_index-apply_record now_ms position r index h = ground arith

module _ (now_ms : ℕ) (r : Record) (h : IsStorable r) where
  take-encode : (rest : Bytes) → take record_header_size (encode r ++ rest) ≡ make_header r
  take-encode rest =
      rw append_assoc (take-append_length (make_header r) _ _ (sym (length-make_header r)))

  drop-encode :
      (rest : Bytes) → drop record_header_size (encode r ++ rest) ≡ r.key ++ (r.value ++ rest)
  drop-encode rest =
      rw (append_assoc, drop-append_length (make_header r) _ _ (sym (length-make_header r)))
        (append_assoc r.key r.value rest)

  payload_complete :
      (remaining position : ℕ) (rest : Bytes) (state : RecoveryState)
      → record_size r ≤ remaining
      → position + remaining < 2 ^ 64
      → recover_payload now_ms remaining (header_of r) position (r.key ++ (r.value ++ rest)) state
        ≡ next (position + record_size r) rest (record state {
          index = apply_record now_ms position r state.index;
          valid_records = u64 (state.valid_records + 1);
        })
  unfolding recover_payload
  payload_complete remaining position rest state fits small =
      rw
        (
          take-append_length r.key (r.value ++ rest) (length r.key) refl,
          drop-append_length r.key (r.value ++ rest) (length r.key) refl,
          take-append_length r.value rest (length r.value) refl,
          drop-append_length r.value rest (length r.value) refl,
          recover_index-apply_record now_ms position r state.index h,
        )
        (ground arith)

  round_complete :
      (total position : ℕ) (rest : Bytes) (state : RecoveryState)
      → position + record_size r ≤ total
      → total < 2 ^ 64
      → recover_round now_ms total position (encode r ++ rest) state
        ≡ next (position + record_size r) rest (record state {
          index = apply_record now_ms position r state.index;
          valid_records = u64 (state.valid_records + 1);
        })
  unfolding recover_round
  round_complete total position rest state fits small =
      rw
        (
          take-encode rest,
          length-make_header,
          parse_header-make_header r h,
          drop-encode rest,
          payload_complete (total - position) position rest state (omega arith) (omega arith),
        )
        (ground arith)

  take-torn :
      (n : ℕ) → record_header_size ≤ n → take record_header_size (take n (encode r)) ≡ make_header r
  take-torn n long =
      rw (take-take_le record_header_size n (encode r) long)
        (take-append_length (make_header r) (r.key ++ r.value) _ (sym (length-make_header r)))

  payload_torn :
      (remaining position : ℕ) (stream : Bytes) (state : RecoveryState)
      → remaining < record_size r
      → recover_payload now_ms remaining (header_of r) position stream state
        ≡ stop (record state { truncated_bytes = remaining }) position
  unfolding recover_payload
  payload_torn remaining position stream state short = ground (arith, h.key_fits, h.value_fits)

  -- A record of which the file holds the first `n` bytes only ends the scan.
  round_torn :
      (n total position : ℕ) (state : RecoveryState)
      → n < record_size r
      → position + n ≡ total
      → recover_round now_ms total position (take n (encode r)) state
        ≡ stop (record state { truncated_bytes = n }) position
  unfolding recover_round
  round_torn n total position state short whole = elim (Bool-cases (ltb n record_header_size)) [
    | inl below ↦ let e : total - position ≡ n = omega arith in rw (e, below)
    | inr above ↦
        let e : total - position ≡ n = omega arith in
        rw (
          e,
          above,
          take-torn n (ground arith),
          length-make_header r,
          parse_header-make_header r h,
          payload_torn (total - position) position _ state (omega arith),
          e,
        )
  ]

-- The loop at the cut record, which may have no byte at all in the file.
recover_loop_torn :
    (now_ms : ℕ) (r : Record) (n total fuel position : ℕ) (state : RecoveryState)
    → IsStorable r
    → n < record_size r
    → position + n ≡ total
    → n ≤ fuel
    → state.truncated_bytes ≡ 0
    → recover_loop now_ms total fuel position (take n (encode r)) state
      ≡ succeed (record state { truncated_bytes = n }, position)
unfolding recover_loop
recover_loop_torn now_ms r n total zero position state h short whole enough fresh = ground arith
recover_loop_torn now_ms r n total (suc fuel) position state h short whole enough fresh =
    ground (arith, round_torn now_ms r h n total position state short whole)

pub recover_loop_step :
    (now_ms : ℕ) (r : Record) (h : IsStorable r) (total fuel position : ℕ) (rest : Bytes)
    (state : RecoveryState)
    → position + record_size r ≤ total
    → total < 2 ^ 64
    → recover_loop now_ms total (suc fuel) position (encode r ++ rest) state
      ≡ recover_loop now_ms total fuel (position + record_size r) rest (record state {
        index = apply_record now_ms position r state.index;
        valid_records = u64 (state.valid_records + 1);
      })
unfolding recover_loop
recover_loop_step now_ms r h total fuel position rest state fits small =
    ground (arith, round_complete now_ms r h total position rest state fits small)

-- The state after the records `rs` from `position` on.
abbrev pub scanned : ℕ → ℕ → List Record → ℕ → RecoveryState → RecoveryState
scanned now_ms position rs n state = record {
  index = replay now_ms position rs state.index;
  valid_records = u64 (state.valid_records + length rs);
  truncated_bytes = n;
}

-- The loop reads a log of whole records and stops at the cut one behind it.
pub recover_loop-encode_all :
    (now_ms : ℕ) (rs : List Record) (r : Record) (n total fuel position : ℕ) (state : RecoveryState)
    → All IsStorable rs
    → IsStorable r
    → n < record_size r
    → position + log_size rs + n ≡ total
    → total < 2 ^ 64
    → log_size rs + n ≤ fuel
    → state.truncated_bytes ≡ 0
    → state.valid_records < 2 ^ 64
    → recover_loop now_ms total fuel position (encode_all rs ++ take n (encode r)) state
      ≡ succeed (scanned now_ms position rs n state, position + log_size rs)
unfolding replay
recover_loop-encode_all now_ms [] r n total fuel position state hs h short whole small enough fresh
      word =
    ground (
      arith,
      recover_loop_torn now_ms r n total fuel position state h short (omega arith) (omega arith)
          fresh,
    )
recover_loop-encode_all now_ms (q ∷ rs) r n total zero position state hs h short whole small enough
      fresh word =
    absurd (omega arith)
recover_loop-encode_all now_ms (q ∷ rs) r n total (suc fuel) position state hs h short whole small
      enough fresh word =
    let state' : RecoveryState = record state {
      index = apply_record now_ms position q state.index;
      valid_records = u64 (state.valid_records + 1);
    } in
    let rest = encode_all rs ++ take n (encode r) in
    rw
      (
        append_assoc (encode q) (encode_all rs) (take n (encode r)),
        recover_loop_step now_ms q hs.0 total fuel position rest state (omega arith) small,
        recover_loop-encode_all now_ms rs r n total fuel (position + record_size q) state' hs.1 h
            short (omega arith) small (omega arith) fresh (omega arith),
      )
      (ground arith)
