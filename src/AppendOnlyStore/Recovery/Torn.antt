-- ===== src/AppendOnlyStore/Recovery/Torn.antt =====
-- `recover` on a data file whose last record was cut at any byte, as by a crash in the middle of a
-- write.
use mini_kvstore.Prelude.{
  ℕ, zero, suc, refl, ◌∙◌, ◌+◌, ◌^◌, ◌<◌, ◌≡◌, true, some, List, ◌++◌, All, length, take,
  take-append_length, length-append, length-take, append-nil, sym, Bytes, arith, inl, inr, ◌⊎◌,
}
use mini_kvstore.Status.{success}
use mini_kvstore.Result.{succeed}
use mini_kvstore.Record.{Record}
use mini_kvstore.AppendOnlyStore.Header.RoundTrip.{IsStorable}
use mini_kvstore.AppendOnlyStore.{
  Faults, IsHealthy, Storage, encode, record_size, readable, ensure_open_locked_lem,
  reopen_locked_lem, ensure_open_locked,
}
use mini_kvstore.AppendOnlyStore.Appending.{length-encode}
use mini_kvstore.AppendOnlyStore.Recovery.{
  initial_state, recover, recover_opened, finish_recovery, RecoveryState, recover_loop,
}
use mini_kvstore.AppendOnlyStore.Recovery.Log.{
  encode_all, log_size, scanned, length-encode_all, recover_loop-encode_all,
}

Nat_cases : (n : ℕ) → (n ≡ 0) ⊎ (0 < n)
Nat_cases zero = inl refl
Nat_cases (suc n) = inr (omega arith)

module _ (f : Faults) (healthy : IsHealthy f) where
  finish_whole :
      (s : Storage) (content : Bytes) (state : RecoveryState) (position : ℕ)
      → state.truncated_bytes ≡ 0
      → finish_recovery f s content state position ≡ (s, succeed state)
  unfolding finish_recovery
  finish_whole s content state position e = rw e

  finish_torn :
      (s : Storage) (content : Bytes) (state : RecoveryState) (position : ℕ)
      → 0 < state.truncated_bytes
      → finish_recovery f s content state position
        ≡ (record s { is_open = true; data_file = some (take position content) }, succeed state)
  unfolding finish_recovery
  finish_torn s content state position h = ground (
    arith,
    healthy.resize,
    reopen_locked_lem f (record s { data_file = some (take position content) }) healthy,
  )

module _ (f : Faults) (now_ms : ℕ) (s : Storage) (rs : List Record) (r : Record) (n : ℕ)
    (healthy : IsHealthy f) (hs : All IsStorable rs) (h : IsStorable r) (short : n < record_size r)
    (small : log_size rs + n < 2 ^ 64)
    (content : s.data_file ≡ some (encode_all rs ++ take n (encode r))) where
  length_torn : length (encode_all rs ++ take n (encode r)) ≡ log_size rs + n
  length_torn = omega (
    arith,
    length-append (encode_all rs) (take n (encode r)),
    length-encode_all rs,
    length-take n (encode r),
    length-encode r,
  )

  loop_torn :
      let file = encode_all rs ++ take n (encode r) in
      recover_loop now_ms (length file) (length file) 0 file initial_state
      ≡ succeed (scanned now_ms 0 rs n initial_state, log_size rs)
  loop_torn = rw length_torn (
      recover_loop-encode_all now_ms rs r n (log_size rs + n) (log_size rs + n) 0 initial_state hs h
        short (omega arith) small (omega arith) refl (omega arith)
      ∙ ground arith)

  file_whole : n ≡ 0 → encode_all rs ++ take n (encode r) ≡ encode_all rs
  unfolding take
  file_whole e = rw e (append-nil (encode_all rs))

  file_cut : take (log_size rs) (encode_all rs ++ take n (encode r)) ≡ encode_all rs
  file_cut = take-append_length (encode_all rs) _ _ (sym (length-encode_all rs))

  finish_lem :
      (s' : Storage)
      → s'.is_open ≡ true
      → s'.data_file ≡ some (encode_all rs ++ take n (encode r))
      → finish_recovery f s'
          (encode_all rs ++ take n (encode r))
          (scanned now_ms 0 rs n initial_state)
          (log_size rs)
        ≡ (
          record s' { data_file = some (encode_all rs) },
          succeed (scanned now_ms 0 rs n initial_state),
        )
  finish_lem s' opened file =
      let torn : Bytes = encode_all rs ++ take n (encode r) in
      let state : RecoveryState = scanned now_ms 0 rs n initial_state in
      elim (Nat_cases n) [
        | inl none_left ↦
            finish_whole f healthy s' torn state (log_size rs) none_left
            ∙ ground (arith, file_whole none_left)
        | inr some_left ↦
            finish_torn f healthy s' torn state (log_size rs) some_left ∙ ground (arith, file_cut)
      ]

  abbrev torn_storage : Storage
  torn_storage = record s { is_open = true; data_file = some (encode_all rs ++ take n (encode r)) }

  opened_torn : ensure_open_locked f.first s ≡ (torn_storage, success)
  opened_torn = ensure_open_locked_lem f s healthy ∙ ground arith

  recovered_torn : recover_opened f now_ms torn_storage ≡ (
    record torn_storage { data_file = some (encode_all rs) },
    succeed (scanned now_ms 0 rs n initial_state),
  )
  unfolding recover_opened readable
  recovered_torn = rw (healthy.size, healthy.read, loop_torn) (finish_lem torn_storage refl refl)

  -- Whatever the byte at which the last record of a log is cut, where the file is shorter than 2
  -- ^ 64 bytes and no call of the operating system fails: `recover` succeeds with the index of
  -- the whole records before it, counts them and the bytes behind them, and leaves a file that
  -- holds those records and nothing else.
  pub recover_torn : recover f now_ms s ≡ (
    record s { is_open = true; data_file = some (encode_all rs) },
    succeed (scanned now_ms 0 rs n initial_state),
  )
  unfolding recover
  recover_torn = rw (opened_torn, recovered_torn)
