-- ===== src/KeyValueStore.antt =====
-- include/minikv/KeyValueStore.h and src/KeyValueStore.cpp. A method is a function of the store that
-- returns the new store with its result. Each stands for a call that no other call interleaves with,
-- and Threads has the interleavings: the writers hold `indexMutex_` alone from their first look at the
-- index on, and `get` gives its lock up only before
-- `eraseIfExpired`, which is a function of its own. `now_ms` is the clock as the call reads it.
pub mod Sweep
pub mod Slots
pub mod Represents
pub mod Reads
pub mod Get
pub mod Writes
pub mod Setting
pub mod Opening
pub mod Crash
pub mod Removing
pub mod Removed
pub mod Sweeping
pub mod Sorting
pub mod Keys
pub mod Listing
pub mod Exists
pub mod Expiry
pub mod Opened
pub mod Lookup
pub mod Sizes
pub mod Collecting
pub mod Lives
pub mod Compacting
pub mod Threads
use mini_kvstore.Prelude.{
  ℕ, suc, ◌+◌, ◌*◌, ◌/◌, ◌%◌, ◌^◌, Bool, true, false, not, ◌&&◌, ◌||◌, Bytes, text, bytes_eq,
  bytes_key, List, [], ◌∷◌, ◌++◌, length, take, ltb, ◌==◌, if◌then◌else◌, Option, none, some,
}
use mini_kvstore.UnorderedMap.{find, assign, erase}
use mini_kvstore.Status.{
  Status, StatusCode, not_found, success, is_ok, not_found_status, invalid_argument_status,
  closed_status, io_error_status,
}
use mini_kvstore.Result.{Result, succeed, fail}
use mini_kvstore.Record.{
  Operation, Record, RecordMetadata, maximum_key_size, maximum_value_size, u64, is_positive64,
  is_expired,
}
use mini_kvstore.LruCache
use mini_kvstore.LruCache.{Cache, CacheStatistics}
use mini_kvstore.AppendOnlyStore.{
  Faults, Storage, Disk, new_storage, close_storage, open_storage, append_set, append_delete,
  read_value, file_size,
}
use mini_kvstore.AppendOnlyStore.Recovery.{Index, RecoveryState, recover}

pub record StoreConfig : Type 0 where
  pub data_file : Bytes
  pub cache_capacity : ℕ
  pub cleanup_interval : ℕ
  pub start_background_cleaner : Bool

pub record Store : Type 0 where
  pub config : StoreConfig
  pub storage : Storage
  pub cache : Cache Bytes Bytes
  pub index : Index
  pub opened : Bool
  pub stop_requested : Bool
  pub cleaner_running : Bool
  pub get_operations : ℕ
  pub set_operations : ℕ
  pub delete_operations : ℕ
  pub expired_keys : ℕ
  pub compactions : ℕ
  pub recovered_records : ℕ
  pub truncated_tail_bytes : ℕ

-- The constructor, over what the file system has at the path of the data file.
unfoldable pub new_store : StoreConfig → Disk → Store
unfolding LruCache.init
new_store config disk = record {
  config = config;
  storage = new_storage config.data_file disk;
  cache = LruCache.init config.cache_capacity;
  index = [];
  opened = false;
  stop_requested = false;
  cleaner_running = false;
  get_operations = 0;
  set_operations = 0;
  delete_operations = 0;
  expired_keys = 0;
  compactions = 0;
  recovered_records = 0;
  truncated_tail_bytes = 0;
}

-- `isOpen`
abbrev pub is_open : Store → Bool
is_open s = s.opened

-- `counter.fetch_add(1)`
abbrev pub bump : ℕ → ℕ
bump counter = u64 (counter + 1)

-- The members after a successful `recover`, and the cleaner thread: `thread_error` is the text of
-- the exception that its start throws, if it does.
unfoldable pub start : Option Bytes → Store → RecoveryState → Store × Status
start thread_error s state =
    let ready = record s {
      index = state.index;
      cache = LruCache.clear s.cache;
      recovered_records = state.valid_records;
      truncated_tail_bytes = state.truncated_bytes;
      stop_requested = false;
      opened = true;
    } in
    if s.config.start_background_cleaner
    then elim thread_error [
      | none ↦ (record ready { cleaner_running = true }, success)
      | some what ↦ (
        record ready { opened = false },
        io_error_status (text "failed to start cleaner thread: " ++ what),
      )
    ]
    else (ready, success)

-- `open`: `f` is for the `open` of the storage, and `g` for its `recover`.
unfoldable pub open_store : Faults → Faults → ℕ → Option Bytes → Store → Store × Status
open_store f g now_ms thread_error s =
    if s.opened
    then (s, success)
    else if not (is_positive64 s.config.cleanup_interval)
    then (s, invalid_argument_status (text "cleanup interval must be greater than zero"))
    else let (storage, open_status) = open_storage f s.storage in
      if not (is_ok open_status)
      then (record s { storage = storage }, open_status)
      else let (storage', recovery) = recover g now_ms storage in
        elim recovery [
          | fail st ↦ (record s { storage = storage' }, st)
          | succeed state ↦ start thread_error (record s { storage = storage' }) state
        ]

-- The cleaner thread ends when it sees `stop_requested`, and `close` waits for that.
unfoldable pub close : Store → Store × Status
close s =
    if s.opened
    then (record s { opened = false; stop_requested = true; cleaner_running = false }, success)
    else (s, success)

-- The destructor, and that of the storage behind it.
unfoldable pub destroy : Store → Store
destroy s = let s' = (close s).0 in record s' { storage = close_storage s'.storage }

unfoldable pub validate_key : Bytes → Status
validate_key key =
    if length key == 0
    then invalid_argument_status (text "key must not be empty")
    else if ltb maximum_key_size (length key)
    then invalid_argument_status (text "key exceeds 4 KiB")
    else success

unfoldable pub validate_value : Bytes → Status
validate_value value =
    if ltb maximum_value_size (length value)
    then invalid_argument_status (text "value exceeds 16 MiB")
    else success

-- `ttl.has_value() && ttl->count() <= 0`
abbrev pub is_bad_ttl : Option ℕ → Bool
is_bad_ttl ttl = elim ttl [ none ↦ false | some count ↦ not (is_positive64 count) ]

-- The sum is one of `std::int64_t`; where it overflows, two's complement is what compilers give.
abbrev pub expiry : ℕ → Option ℕ → ℕ
expiry now_ms ttl = elim ttl [ none ↦ 0 | some count ↦ u64 (now_ms + count) ]

-- `set` under the lock, from the second look at whether the store is open on.
unfoldable pub set_locked : Faults → Store → Bytes → Bytes → ℕ → Store × Status
set_locked f s key value expires_at_ms =
    if not s.opened
    then (s, closed_status (text "store was closed during SET"))
    else let (storage, append_result) = append_set f s.storage key value expires_at_ms in
      elim append_result [
        | fail st ↦ (record s { storage = storage }, st)
        | succeed metadata ↦ (
          record s {
            storage = storage;
            index = assign key metadata s.index;
            cache = LruCache.put s.cache key value;
            set_operations = bump s.set_operations;
          },
          success,
        )
      ]

unfoldable pub set : Faults → ℕ → Store → Bytes → Bytes → Option ℕ → Store × Status
set f now_ms s key value ttl =
    if not s.opened
    then (s, closed_status (text "store is not open"))
    else if not (is_ok (validate_key key))
    then (s, validate_key key)
    else if not (is_ok (validate_value value))
    then (s, validate_value value)
    else if is_bad_ttl ttl
    then (s, invalid_argument_status (text "TTL must be greater than zero"))
    else set_locked f s key value (expiry now_ms ttl)

-- Drop a key whose entry has expired, as `eraseIfExpired` and `remove` do.
abbrev pub drop_key : Store → Bytes → Store
drop_key s key = record s {
  cache = LruCache.remove s.cache key;
  index = erase key s.index;
  expired_keys = bump s.expired_keys;
}

unfoldable pub erase_if_expired : ℕ → Store → Bytes → Store × Bool
erase_if_expired now_ms s key = elim (find key s.index) [
  | none ↦ (s, false)
  | some metadata ↦
      if not (is_expired metadata.expires_at_ms now_ms) then (s, false) else (drop_key s key, true)
]

-- `get` for a key that is in the index and has not expired.
unfoldable pub get_live : Faults → Store → Bytes → RecordMetadata → Store × Result Bytes
get_live f s key metadata =
    let (cache, cached) = LruCache.get s.cache key in
    elim cached [
      | some value ↦ (record s { cache = cache }, succeed value)
      | none ↦
          let (storage, read_result) = read_value f s.storage metadata in
          elim read_result [
            | fail st ↦ (record s { cache = cache; storage = storage }, fail st)
            | succeed value ↦ (
              record s { cache = LruCache.put cache key value; storage = storage },
              succeed value,
            )
          ]
    ]

-- `get` under the lock.
unfoldable pub get_locked : Faults → ℕ → Store → Bytes → Store × Result Bytes
get_locked f now_ms s key = elim (find key s.index) [
  | none ↦ (s, fail (not_found_status (text "key does not exist")))
  | some metadata ↦
      if is_expired metadata.expires_at_ms now_ms
      then ((erase_if_expired now_ms s key).0, fail (not_found_status (text "key has expired")))
      else get_live f s key metadata
]

unfoldable pub get : Faults → ℕ → Store → Bytes → Store × Result Bytes
get f now_ms s key =
    if not s.opened
    then (s, fail (closed_status (text "store is not open")))
    else if not (is_ok (validate_key key))
    then (s, fail (validate_key key))
    else get_locked f now_ms (record s { get_operations = bump s.get_operations }) key

-- `remove` for a key that is in the index.
unfoldable pub remove_found : Faults → ℕ → Store → Bytes → RecordMetadata → Store × Status
remove_found f now_ms s key metadata =
    if is_expired metadata.expires_at_ms now_ms
    then (drop_key s key, not_found_status (text "key has expired"))
    else let (storage, append_status) = append_delete f s.storage key in
      if not (is_ok append_status) then (record s { storage = storage }, append_status) else (
        record s {
          storage = storage;
          cache = LruCache.remove s.cache key;
          index = erase key s.index;
          delete_operations = bump s.delete_operations;
        },
        success,
      )

unfoldable pub remove : Faults → ℕ → Store → Bytes → Store × Status
remove f now_ms s key =
    if not s.opened
    then (s, closed_status (text "store is not open"))
    else if not (is_ok (validate_key key))
    then (s, validate_key key)
    else elim (find key s.index) [
      | none ↦ (s, not_found_status (text "key does not exist"))
      | some metadata ↦ remove_found f now_ms s key metadata
    ]

-- `status.code() == StatusCode::NotFound`
abbrev pub is_not_found : Status → Bool
is_not_found st = elim st.code [ not_found ↦ true | _ ↦ false ]

unfoldable pub exists : Faults → ℕ → Store → Bytes → Store × Result Bool
exists f now_ms s key =
    let (s', result) = get f now_ms s key in
    (
      s',
      elim result [
        | succeed value ↦ succeed true
        | fail st ↦ if is_not_found st then succeed false else fail st
      ],
    )
