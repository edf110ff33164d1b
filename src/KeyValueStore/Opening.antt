-- ===== src/KeyValueStore/Opening.antt =====
-- `open` on the data file that an earlier run left, also one that ended in the middle of a write.
use mini_kvstore.Prelude.{
  ℕ, ◌+◌, ◌^◌, ◌<◌, ◌≡◌, refl, ◌∙◌, true, false, none, some, List, [], ◌++◌, All, bytes_key, arith,
  if◌then◌else◌, length, take,
}
use mini_kvstore.UnorderedMap.{find}
use mini_kvstore.Status.{Status, success}
use mini_kvstore.Result.{succeed}
use mini_kvstore.Record.{Record, u64, is_positive64}
use mini_kvstore.LruCache
use mini_kvstore.LruCache.Valid.{clear-IsValid}
use mini_kvstore.LruCache.Cached.{cached-clear}
use mini_kvstore.AppendOnlyStore.{
  Faults, Storage, IsHealthy, encode, record_size, open_storage, ensure_open_locked_lem,
}
use mini_kvstore.AppendOnlyStore.Header.RoundTrip.{IsStorable}
use mini_kvstore.AppendOnlyStore.Recovery.{RecoveryState, initial_state, recover}
use mini_kvstore.AppendOnlyStore.Recovery.Log.{encode_all, log_size, scanned, replay}
use mini_kvstore.AppendOnlyStore.Recovery.Torn.{recover_torn}
use mini_kvstore.KeyValueStore.{Store, open_store, start}
use mini_kvstore.KeyValueStore.Represents.{Represents, replay-IsMap, replay-Agrees}

-- A store that can be opened: it is shut, and its cleaner has an interval.
pub record IsOpenable (s : Store) : Type 0 where
  pub shut : s.opened ≡ false
  pub interval : is_positive64 s.config.cleanup_interval ≡ true

-- What `open` promises of a data file with the records `log` and `n` bytes of another behind them.
pub record Restored (now_ms : ℕ) (log : List Record) (n : ℕ) (outcome : Store × Status)
    : Type 0 where
  pub succeeded : outcome.1 ≡ success
  pub opened : outcome.0.opened ≡ true
  pub counted : outcome.0.recovered_records ≡ u64 (length log)
  pub discarded : outcome.0.truncated_tail_bytes ≡ n
  pub stands : Represents now_ms outcome.0 log

-- The two calls that `open` makes, in a row.
opening_steps :
    (f g : Faults) (now_ms : ℕ) (s : Store) (first second : Storage) (state : RecoveryState)
    → IsOpenable s
    → open_storage f s.storage ≡ (first, success)
    → recover g now_ms first ≡ (second, succeed state)
    → open_store f g now_ms none s ≡ start none (record s { storage = second }) state
unfolding open_store
opening_steps f g now_ms s first second state openable opening recovering =
    let shut = openable.shut in let interval = openable.interval in ground arith

module _ (now_ms : ℕ) (s : Store) (log : List Record) (r : Record) (n : ℕ) (f g : Faults)
    (healthy_open : IsHealthy f) (healthy : IsHealthy g) (openable : IsOpenable s)
    (hs : All IsStorable log) (h : IsStorable r) (short : n < record_size r)
    (small : log_size log + n < 2 ^ 64)
    (content : s.storage.data_file ≡ some (encode_all log ++ take n (encode r))) where
  -- The store behind a successful `recover`.
  abbrev recovered : Store
  recovered = record s {
    storage = record s.storage { is_open = true; data_file = some (encode_all log) };
    index = replay now_ms 0 log [];
    cache = LruCache.clear s.cache;
    recovered_records = u64 (length log);
    truncated_tail_bytes = n;
    stop_requested = false;
    opened = true;
    cleaner_running = if s.config.start_background_cleaner then true else s.cleaner_running;
  }

  opened_storage : open_storage f s.storage ≡ (
    record s.storage { is_open = true; data_file = some (encode_all log ++ take n (encode r)) },
    success,
  )
  unfolding open_storage
  opened_storage = ensure_open_locked_lem f s.storage healthy_open ∙ ground (arith, content)

  recovered_state :
      recover g now_ms (record s.storage {
        is_open = true;
        data_file = some (encode_all log ++ take n (encode r));
      })
      ≡ (
        record s.storage { is_open = true; data_file = some (encode_all log) },
        succeed (scanned now_ms 0 log n initial_state),
      )
  recovered_state = recover_torn g now_ms _ log r n healthy hs h short small refl

  start_lem :
      start none
        (record s {
          storage = record s.storage { is_open = true; data_file = some (encode_all log) };
        })
        (scanned now_ms 0 log n initial_state)
      ≡ (recovered, success)
  unfolding start
  start_lem = ground arith

  open_store_lem : open_store f g now_ms none s ≡ (recovered, success)
  open_store_lem =
      opening_steps f g now_ms s _ _ _ openable opened_storage recovered_state ∙ start_lem

  recovered-Represents : Represents now_ms recovered log
  unfolding find
  recovered-Represents = record {
    file = refl;
    storable = hs;
    small = omega arith;
    index_map = replay-IsMap now_ms 0 log [] tt;
    index_agrees = λ k. replay-Agrees now_ms 0 log [] k none tt tt;
    cache_valid = clear-IsValid s.cache;
    cache_agrees = λ k v p. ground (arith, cached-clear s.cache k);
  }

  -- Where the store is shut with a positive cleanup interval, the cleaner thread can be started,
  -- and no call of the operating system fails: `open` on a data file, shorter than 2 ^ 64 bytes,
  -- with whole records and any proper part of one more behind them succeeds, counts the whole
  -- records and the bytes behind them, and the store stands for the whole records.
  pub open_store-Restored : Restored now_ms log n (open_store f g now_ms none s)
  open_store-Restored = rw open_store_lem (record {
    succeeded = refl;
    opened = refl;
    counted = refl;
    discarded = refl;
    stands = recovered-Represents;
  })
