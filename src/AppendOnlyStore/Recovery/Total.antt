-- ===== src/AppendOnlyStore/Recovery/Total.antt =====
-- The loop of `recover` on any bytes: it accounts for every byte of the file, so its fuel is enough.
use mini_kvstore.Prelude.{
  ℕ, zero, suc, ◌+◌, ◌-◌, ◌^◌, ◌≤◌, ◌<◌, ◌≡◌, ◌≢◌, some, take_of_length-le, refl, true, false,
  Bytes, length, take, drop, get_or, ◌%◌, arith, ltb, Bool-cases, inl, inr, ltb→lt,
}
use mini_kvstore.Status.{is_ok}
use mini_kvstore.AppendOnlyStore.{Faults, Storage, ensure_open_locked, reopen_locked, readable}
use mini_kvstore.AppendOnlyStore.Reading.{data-ensure_open_locked}
use mini_kvstore.Result.{Result, succeed, fail, Result-cases}
use mini_kvstore.Record.{record_header_size, maximum_key_size, maximum_value_size}
use mini_kvstore.AppendOnlyStore.Header.{
  ParsedHeader, parse_header, check_header, operation_of, get32, get64,
}
use mini_kvstore.AppendOnlyStore.Recovery.{
  RecoveryState, Round, stop, raise, next, recover_payload, recover_round, recover_loop, recover,
  recover_opened, finish_recovery, initial_state,
}

-- A header that is accepted has sizes within the limits.
check_header-bounds :
    (parsed header : ParsedHeader)
    → check_header parsed ≡ succeed header
    → (header.key_size ≤ maximum_key_size) × (header.value_size ≤ maximum_value_size)
unfolding check_header
check_header-bounds parsed header h = ground arith

parse_header-bounds :
    (bytes : Bytes) (header : ParsedHeader)
    → parse_header bytes ≡ succeed header
    → (header.key_size ≤ maximum_key_size) × (header.value_size ≤ maximum_value_size)
unfolding parse_header
parse_header-bounds bytes header h = ground (
  arith,
  check_header-bounds
      (record {
        operation = operation_of (get_or bytes 6 0 % 256);
        key_size = get32 bytes 8;
        value_size = get32 bytes 12;
        expires_at_ms = get64 bytes 16;
        checksum = get32 bytes 24;
      })
      header,
)

-- A round that starts at `position` accounts for the bytes: it stops with all that are left, or goes
-- on, further and not past the end.
abbrev Accounts : ℕ → ℕ → Round → Type 0
Accounts total position (stop state position') = position' + state.truncated_bytes ≡ total
Accounts total position (raise st) = Unit
Accounts total position (next position' stream state) =
    (position < position') × (position' ≤ total) × (state.truncated_bytes ≡ 0)

module _ (now_ms total position : ℕ) (inside : position < total) (small : total < 2 ^ 64) where
  payload-Accounts :
      (header : ParsedHeader) (stream : Bytes) (state : RecoveryState)
      → header.key_size ≤ maximum_key_size
      → header.value_size ≤ maximum_value_size
      → state.truncated_bytes ≡ 0
      → Accounts total position
          (recover_payload now_ms (total - position) header position stream state)
  unfolding recover_payload
  payload-Accounts header stream state key_fits value_fits fresh = ground arith

  round-Accounts :
      (stream : Bytes) (state : RecoveryState)
      → state.truncated_bytes ≡ 0
      → Accounts total position (recover_round now_ms total position stream state)
  unfolding recover_round
  round-Accounts stream state fresh =
      elim (Result-cases (parse_header (take record_header_size stream))) [
        | inl (header, parsed) ↦
            let (key_fits, value_fits) = parse_header-bounds _ header parsed in
            ground (
              arith,
              payload-Accounts header (drop record_header_size stream) state key_fits value_fits
                  fresh,
            )
        | inr (st, failed) ↦ ground arith
      ]

-- On any bytes, of a file shorter than 2 ^ 64 bytes, with at least as much fuel as there are
-- bytes left and nothing yet truncated: where the loop of `recover` ends with no error, the
-- position and the bytes to be truncated add up to the size of the file, so that it has not ended
-- for want of fuel.
pub recover_loop-accounts :
    (now_ms total fuel position : ℕ) (stream : Bytes) (state state' : RecoveryState) (position' : ℕ)
    → position ≤ total
    → total < 2 ^ 64
    → total ≤ fuel + position
    → state.truncated_bytes ≡ 0
    → recover_loop now_ms total fuel position stream state ≡ succeed (state', position')
    → position' + state'.truncated_bytes ≡ total
unfolding recover_loop
recover_loop-accounts now_ms total zero position stream state state' position' le small enough fresh
      h =
    ground (arith, h)
recover_loop-accounts now_ms total (suc fuel) position stream state state' position' le small enough
      fresh h =
    elim (Bool-cases (ltb position total)) [
      | inr past ↦ ground (arith, h)
      | inl inside ↦
          go
            (λ (position'' : ℕ) (stream'' : Bytes) (state'' : RecoveryState).
              recover_loop-accounts now_ms total fuel position'' stream'' state'' state' position')
            (recover_round now_ms total position stream state)
            (round-Accounts now_ms total position (ltb→lt position total inside) small stream state
              fresh)
            (rw (inside, recover_loop) at h)
    ]
  where
    go :
        ((position'' : ℕ) (stream'' : Bytes) (state'' : RecoveryState)
          → position'' ≤ total
          → total < 2 ^ 64
          → total ≤ fuel + position''
          → state''.truncated_bytes ≡ 0
          → recover_loop now_ms total fuel position'' stream'' state'' ≡ succeed (state', position')
          → position' + state'.truncated_bytes ≡ total)
        → (round : Round) → Accounts total position round
        → ◌≡◌ {A = Result (RecoveryState × ℕ)}
            (elim round [
              | stop state'' position'' ↦ succeed (state'', position'')
              | raise st ↦ fail st
              | next position'' stream'' state'' ↦
                  recover_loop now_ms total fuel position'' stream'' state''
            ])
            (succeed (state', position'))
        → position' + state'.truncated_bytes ≡ total
    go again (stop state'' position'') a e = ground (arith, e)
    go again (raise st) a e = absurd (ground (arith, e))
    go again (next position'' stream'' state'') a e =
        again position'' stream'' state'' (a.1) small (omega (arith, a.0)) (a.2) e

pub reopened :
    (f : Faults) (s : Storage) (content : Bytes)
    → s.data_file ≡ some content
    → (reopen_locked f.again s).0.data_file ≡ some content
unfolding reopen_locked
reopened f s content file =
    data-ensure_open_locked f.again (record s { is_open = false }) content file

opened_steps :
    (f : Faults) (now_ms : ℕ) (s : Storage) (content : Bytes) (result : Result (RecoveryState × ℕ))
    → s.data_file ≡ some content
    → f.size_fails ≡ false
    → recover_loop now_ms (length content) (length content) 0 (readable f content) initial_state
      ≡ result
    → recover_opened f now_ms s ≡ elim result [
      | fail st ↦ (s, fail st)
      | succeed (state, position) ↦ finish_recovery f s content state position
    ]
unfolding recover_opened
opened_steps f now_ms s content result file sized h = ground arith

finish_lem :
    (f : Faults) (s : Storage) (content : Bytes) (state state' : RecoveryState) (position : ℕ)
    → s.data_file ≡ some content
    → position + state'.truncated_bytes ≡ length content
    → (finish_recovery f s content state' position).1 ≡ succeed state
    → (state.truncated_bytes ≤ length content)
      × ((finish_recovery f s content state' position).0.data_file
          ≡ some (take (length content - state.truncated_bytes) content))
unfolding finish_recovery
finish_lem f s content state state' position file sum h =
    elim (Bool-cases (ltb 0 state'.truncated_bytes)) [
      | inl torn ↦
          let cut =
            reopened f (record s { data_file = some (take position content) })
              (take position content) refl in
          (ground (arith, h), ground (arith, h, cut))
      | inr whole ↦
          (ground (arith, h), ground (arith, h, take_of_length-le (length content) content))
    ]

lost_size :
    (f : Faults) (now_ms : ℕ) (s : Storage) (state : RecoveryState)
    → f.size_fails ≡ true
    → (recover_opened f now_ms s).1 ≢ succeed state
unfolding recover_opened
lost_size f now_ms s state lost = λ h. ground (arith, h)

opened_lem :
    (f : Faults) (now_ms : ℕ) (s : Storage) (content : Bytes) (state : RecoveryState)
    → s.data_file ≡ some content
    → length content < 2 ^ 64
    → (recover_opened f now_ms s).1 ≡ succeed state
    → (state.truncated_bytes ≤ length content)
      × ((recover_opened f now_ms s).0.data_file
          ≡ some (take (length content - state.truncated_bytes) content))
opened_lem f now_ms s content state file small h = elim (Bool-cases f.size_fails) [
  | inl lost ↦ absurd (lost_size f now_ms s state lost h)
  | inr sized ↦
      elim (Result-cases (
        recover_loop now_ms (length content) (length content) 0 (readable f content)
          initial_state)) [
            | inl ((state', position), done) ↦
                let sum =
                  recover_loop-accounts now_ms (length content) (length content) 0
                    (readable f content) initial_state state' position (omega arith) small
                    (omega arith) refl done in
                let steps = opened_steps f now_ms s content _ file sized done in
                rw steps (finish_lem f s content state state' position file sum (rw steps at h))
            | inr (st, failed) ↦ absurd (
                let steps = opened_steps f now_ms s content _ file sized failed in
                ground (arith, h, steps))
          ]
]

-- Whatever bytes the data file holds, fewer than 2 ^ 64, and whatever calls of the operating
-- system fail: where `recover` succeeds, it has taken from the end of the data file the bytes
-- that it reports as truncated, and nothing else.
pub recover_lem :
    (f : Faults) (now_ms : ℕ) (s : Storage) (content : Bytes) (state : RecoveryState)
    → s.data_file ≡ some content
    → length content < 2 ^ 64
    → (recover f now_ms s).1 ≡ succeed state
    → (state.truncated_bytes ≤ length content)
      × ((recover f now_ms s).0.data_file
          ≡ some (take (length content - state.truncated_bytes) content))
unfolding recover
recover_lem f now_ms s content state file small h =
    let kept = data-ensure_open_locked f.first s content file in
    elim (Bool-cases (is_ok (ensure_open_locked f.first s).1)) [
      | inl opened ↦ rw opened (
          opened_lem f now_ms (ensure_open_locked f.first s).0 content state kept small
            (rw opened at h))
      | inr failed ↦ absurd (ground (arith, h))
    ]
