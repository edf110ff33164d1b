-- ===== src/KeyValueStore/Sweep.antt =====
-- The operations of src/KeyValueStore.cpp that go over the whole index: `cleanupExpired`, `keys`,
-- `compact` and `statistics`.
use mini_kvstore.Prelude.{
  ℕ, ◌+◌, Bool, not, ◌||◌, Bytes, text, bytes_eq, List, [], ◌∷◌, length, take, sort, if◌then◌else◌,
  ◌==◌, bytes_key,
}
use mini_kvstore.Status.{closed_status}
use mini_kvstore.Result.{Result, succeed, fail}
use mini_kvstore.Record.{Operation, Record, u64, is_expired}
use mini_kvstore.LruCache
use mini_kvstore.LruCache.{Cache, CacheStatistics}
use mini_kvstore.AppendOnlyStore.{Faults, Storage, read_value, file_size}
use mini_kvstore.AppendOnlyStore.Recovery.{Index}
use mini_kvstore.AppendOnlyStore.Compaction.{compact as compact_storage}
use mini_kvstore.KeyValueStore.{Store, bump}

pub record EngineStatistics : Type 0 where
  pub key_count : ℕ
  pub data_file_bytes : ℕ
  pub get_operations : ℕ
  pub set_operations : ℕ
  pub delete_operations : ℕ
  pub expired_keys : ℕ
  pub compactions : ℕ
  pub recovered_records : ℕ
  pub truncated_tail_bytes : ℕ
  pub cache : CacheStatistics

pub record CompactionSummary : Type 0 where
  pub live_keys : ℕ
  pub old_file_bytes : ℕ
  pub new_file_bytes : ℕ

-- What the loop over the index that erases expired entries has done: the entries that stay, the
-- cache, and how many entries it erased.
pub record Swept : Type 0 where
  pub index : Index
  pub cache : Cache Bytes Bytes
  pub removed : ℕ

unfoldable pub sweep : ℕ → Index → Cache Bytes Bytes → Swept
sweep now_ms [] cache = record { index = []; cache = cache; removed = 0 }
sweep now_ms ((key, metadata) ∷ rest) cache =
    let expired = is_expired metadata.expires_at_ms now_ms in
    let swept = sweep now_ms rest (if expired then LruCache.remove cache key else cache) in
    if expired
    then record swept { removed = swept.removed + 1 }
    else record swept { index = (key, metadata) ∷ swept.index }

-- The store after the loop; the counter goes up by the number of erased entries.
abbrev pub swept_store : ℕ → Store → Store
swept_store now_ms s =
    let swept = sweep now_ms s.index s.cache in
    record s {
      index = swept.index;
      cache = swept.cache;
      expired_keys = u64 (s.expired_keys + swept.removed);
    }

unfoldable pub cleanup_expired : ℕ → Store → Store × ℕ
cleanup_expired now_ms s =
    if not s.opened then (s, 0) else (swept_store now_ms s, (sweep now_ms s.index s.cache).removed)

-- `prefix.empty() || key.compare(0, prefix.size(), prefix) == 0`
abbrev pub has_prefix : Bytes → Bytes → Bool
has_prefix prefix key = length prefix == 0 || bytes_eq (take (length prefix) key) prefix

unfoldable pub matching_keys : Bytes → Index → List Bytes
matching_keys prefix [] = []
matching_keys prefix ((key, metadata) ∷ rest) =
    let keys = matching_keys prefix rest in if has_prefix prefix key then key ∷ keys else keys

unfoldable pub keys : ℕ → Store → Bytes → Store × Result (List Bytes)
keys now_ms s prefix =
    if not s.opened
    then (s, fail (closed_status (text "store is not open")))
    else let s' = (cleanup_expired now_ms s).0 in
      (s', succeed (sort (λ key. key) (matching_keys prefix s'.index)))

-- The loop of `compact` that reads the live values; `reads` says what happens in the read of each key.
unfoldable pub collect_live : (Bytes → Faults) → Storage → Index → Storage × Result (List Record)
collect_live reads s [] = (s, succeed [])
collect_live reads s ((key, metadata) ∷ rest) =
    let (s', read_result) = read_value (reads key) s metadata in
    elim read_result [
      | fail st ↦ (s', fail st)
      | succeed value ↦
          let (s'', collected) = collect_live reads s' rest in
          (
            s'',
            elim collected [
              | fail st ↦ fail st
              | succeed records ↦ succeed (
                  record {
                    operation = Operation.set;
                    key = key;
                    value = value;
                    expires_at_ms = metadata.expires_at_ms;
                  }
                  ∷ records)
            ],
          )
    ]

-- `compact` from the call of the storage's `compact` on.
unfoldable pub compact_with : Faults → Store → List Record → Store × Result CompactionSummary
compact_with f s live_records =
    let (storage, compact_result) = compact_storage f s.storage (sort (λ r. r.key) live_records) in
    elim compact_result [
      | fail st ↦ (record s { storage = storage }, fail st)
      | succeed state ↦ (
        record s {
          storage = storage;
          index = state.index;
          cache = LruCache.clear s.cache;
          compactions = bump s.compactions;
        },
        succeed (record {
          live_keys = length state.index;
          old_file_bytes = state.old_file_bytes;
          new_file_bytes = state.new_file_bytes;
        }),
      )
    ]

unfoldable pub compact : (Bytes → Faults) → Faults → ℕ → Store → Store × Result CompactionSummary
compact reads f now_ms s =
    if not s.opened
    then (s, fail (closed_status (text "store is not open")))
    else let s' = swept_store now_ms s in
      let (storage, collected) = collect_live reads s'.storage s'.index in
      elim collected [
        | fail st ↦ (record s' { storage = storage }, fail st)
        | succeed live_records ↦ compact_with f (record s' { storage = storage }) live_records
      ]

unfoldable pub statistics : Faults → Store → EngineStatistics
statistics f s = record {
  key_count = length s.index;
  data_file_bytes = file_size f s.storage;
  get_operations = s.get_operations;
  set_operations = s.set_operations;
  delete_operations = s.delete_operations;
  expired_keys = s.expired_keys;
  compactions = s.compactions;
  recovered_records = s.recovered_records;
  truncated_tail_bytes = s.truncated_tail_bytes;
  cache = LruCache.statistics s.cache;
}
