-- ===== src/KeyValueStore/Threads.antt =====
-- The store under calls from many threads and the cleaner thread (`cleanerLoop` of
-- src/KeyValueStore.cpp): a step is what one thread does between two operations on a lock. Readers hold
-- `indexMutex_` shared from their look at the index until they return, so that several are in a `get` at a
-- time; what is done under the lock alone is one step that waits until no reader holds it. The look at
-- `opened_` with which `get` and `remove` begin may lie any time before, so their steps do not ask for
-- it. The writes succeed, or find the store shut or the key missing: a write that fails is not among
-- the steps. `clock` is the time that was read last, and a step may read any time; a
-- `get` that finds no key looks at the index at some time too, though it does not read it. `open`, `compact`,
-- `keys` and `statistics` have no step.
pub mod Invariant
pub mod Runs
pub mod Cleaner
use mini_kvstore.Prelude.{
  ℕ, ◌+◌, ◌^◌, ◌≤◌, ◌<◌, ◌≡◌, ◌==◌, Bool, true, false, Bytes, bytes_key, List, [], ◌∷◌, ◌++◌,
  Option, none, some, if◌then◌else◌,
}
use mini_kvstore.UnorderedMap.{find}
use mini_kvstore.Status.{Status, success, is_ok}
use mini_kvstore.Result.{succeed, fail}
use mini_kvstore.Record.{Record, RecordMetadata, is_expired}
use mini_kvstore.LruCache
use mini_kvstore.LruCache.{Cache}
use mini_kvstore.AppendOnlyStore.{Faults, Storage, read_value, record_size}
use mini_kvstore.AppendOnlyStore.Recovery.Log.{log_size}
use mini_kvstore.KeyValueStore.{
  Store, bump, validate_key, expiry, set_locked, erase_if_expired, remove_found,
}
use mini_kvstore.KeyValueStore.Sweep.{swept_store}
use mini_kvstore.KeyValueStore.Writes.{set_record}
use mini_kvstore.KeyValueStore.Setting.{IsAccepted}
use mini_kvstore.KeyValueStore.Removing.{delete_record}

-- Where a client's thread is: in no call or at the start of one; in a `get`, behind its look at the index,
-- behind a miss of the cache, behind the read of the value, or on its way to `eraseIfExpired`; in a
-- `set`, before the lock; in a `close`, behind the exchange of `opened_`, or behind the store to
-- `stopRequested_`.
pub data Place : Type 0 where
  idle : Place
  found missed : Bytes → RecordMetadata → Place
  loaded : Bytes → RecordMetadata → Bytes → Place
  outdated : Bytes → ℕ → Place
  setting : Bytes → Bytes → ℕ → Place
  closing joining : Place

-- The thread holds the lock shared.
abbrev pub is_reading : Place → Bool
is_reading (found key metadata) = true
is_reading (missed key metadata) = true
is_reading (loaded key metadata value) = true
is_reading _ = false

-- Where the cleaner thread is: at the test of its loop; in `wait_for`; in `cleanupExpired`, before its look at
-- `opened_`, and behind it, before it has `indexMutex_`; behind the loop, or
-- never started.
pub data CleanerPlace : Type 0 where
  looking waiting testing locking ended : CleanerPlace

-- `history` has the records of the writes that have returned success, in the order of their locks. It is not
-- a part of the program's state.
pub record System : Type 0 where
  pub store : Store
  pub places : ℕ → Place
  pub cleaner : CleanerPlace
  pub clock : ℕ
  pub history : List Record

-- Thread `t` has moved on.
abbrev pub move : System → ℕ → Place → Store → System
move y t place s = record y { store = s; places = λ i. if i == t then place else y.places i }

-- No thread holds the lock shared.
abbrev pub IsFree : System → Type 0
IsFree y = (t : ℕ) → is_reading (y.places t) ≡ false

-- What a call tells its client in a step: a value of a key, or NOT_FOUND.
pub data Label : Type 0 where
  silent : Label
  answered : Bytes → Bytes → Label
  denied : Bytes → Label

abbrev pub with_cache : Store → Cache Bytes Bytes → Store
with_cache s cache = record s { cache = cache }

abbrev pub with_storage : Store → Storage → Store
with_storage s storage = record s { storage = storage }

abbrev pub counted : Store → Store
counted s = record s { get_operations = bump s.get_operations }

-- The next time that is read from the clock.
abbrev pub at_time : System → ℕ → System
at_time y now_ms = record y { clock = now_ms }

pub data Step : System → Label → System → Type 0 where
  -- `get`
  looks_missing :
      (y : System) (t now_ms : ℕ) (key : Bytes)
      → y.places t ≡ idle
      → find key y.store.index ≡ none
      → Step y (denied key) (at_time (move y t idle (counted y.store)) now_ms)
  looks_expired :
      (y : System) (t now_ms : ℕ) (key : Bytes) (metadata : RecordMetadata)
      → y.places t ≡ idle
      → find key y.store.index ≡ some metadata
      → is_expired metadata.expires_at_ms now_ms ≡ true
      → Step y (denied key) (at_time (move y t (outdated key now_ms) (counted y.store)) now_ms)
  looks_live :
      (y : System) (t now_ms : ℕ) (key : Bytes) (metadata : RecordMetadata)
      → y.places t ≡ idle
      → find key y.store.index ≡ some metadata
      → is_expired metadata.expires_at_ms now_ms ≡ false
      → Step y silent (at_time (move y t (found key metadata) (counted y.store)) now_ms)
  hits :
      (y : System) (t : ℕ) (key value : Bytes) (metadata : RecordMetadata)
      → y.places t ≡ found key metadata
      → (LruCache.get y.store.cache key).1 ≡ some value
      → Step y
          (answered key value)
          (move y t idle (with_cache y.store (LruCache.get y.store.cache key).0))
  misses :
      (y : System) (t : ℕ) (key : Bytes) (metadata : RecordMetadata)
      → y.places t ≡ found key metadata
      → (LruCache.get y.store.cache key).1 ≡ none
      → Step y silent
          (move y t (missed key metadata) (with_cache y.store (LruCache.get y.store.cache key).0))
  reads :
      (y : System) (t : ℕ) (key value : Bytes) (metadata : RecordMetadata) (f : Faults)
      → y.places t ≡ missed key metadata
      → (read_value f y.store.storage metadata).1 ≡ succeed value
      → Step y silent (
          move y t
            (loaded key metadata value)
            (with_storage y.store (read_value f y.store.storage metadata).0))
  fails :
      (y : System) (t : ℕ) (key : Bytes) (metadata : RecordMetadata) (f : Faults) (st : Status)
      → y.places t ≡ missed key metadata
      → (read_value f y.store.storage metadata).1 ≡ fail st
      → Step y silent
          (move y t idle (with_storage y.store (read_value f y.store.storage metadata).0))
  fills :
      (y : System) (t : ℕ) (key value : Bytes) (metadata : RecordMetadata)
      → y.places t ≡ loaded key metadata value
      → Step y
          (answered key value)
          (move y t idle (with_cache y.store (LruCache.put y.store.cache key value)))
  erases :
      (y : System) (t now_ms : ℕ) (key : Bytes)
      → y.places t ≡ outdated key now_ms
      → IsFree y
      → Step y silent (move y t idle (erase_if_expired now_ms y.store key).0)
  -- `set`
  prepares :
      (y : System) (t now_ms : ℕ) (key value : Bytes) (ttl : Option ℕ)
      → y.places t ≡ idle
      → IsAccepted y.store key value ttl
      → Step y silent (at_time (move y t (setting key value (expiry now_ms ttl)) y.store) now_ms)
  sets :
      (y : System) (t : ℕ) (key value : Bytes) (expires_at_ms : ℕ) (f : Faults)
      → y.places t ≡ setting key value expires_at_ms
      → IsFree y
      → (set_locked f y.store key value expires_at_ms).1 ≡ success
      → log_size y.history + record_size (set_record key value expires_at_ms) < 2 ^ 64
      → Step y silent (record (move y t idle (set_locked f y.store key value expires_at_ms).0) {
        history = y.history ++ set_record key value expires_at_ms ∷ [];
      })
  finds_shut :
      (y : System) (t : ℕ) (key value : Bytes) (expires_at_ms : ℕ) (f : Faults)
      → y.places t ≡ setting key value expires_at_ms
      → IsFree y
      → y.store.opened ≡ false
      → Step y silent (move y t idle (set_locked f y.store key value expires_at_ms).0)
  -- `remove`
  removes_missing :
      (y : System) (key : Bytes) → IsFree y → find key y.store.index ≡ none → Step y (denied key) y
  removes :
      (y : System) (now_ms : ℕ) (key : Bytes) (metadata : RecordMetadata) (f : Faults)
      → is_ok (validate_key key) ≡ true
      → IsFree y
      → find key y.store.index ≡ some metadata
      → is_expired metadata.expires_at_ms now_ms ≡ false
      → (remove_found f now_ms y.store key metadata).1 ≡ success
      → log_size y.history + record_size (delete_record key) < 2 ^ 64
      → Step y silent (record y {
        store = (remove_found f now_ms y.store key metadata).0;
        clock = now_ms;
        history = y.history ++ delete_record key ∷ [];
      })
  removes_expired :
      (y : System) (now_ms : ℕ) (key : Bytes) (metadata : RecordMetadata) (f : Faults)
      → IsFree y
      → find key y.store.index ≡ some metadata
      → is_expired metadata.expires_at_ms now_ms ≡ true
      → Step y
          (denied key)
          (record y { store = (remove_found f now_ms y.store key metadata).0; clock = now_ms })
  -- `close`
  closes :
      (y : System) (t : ℕ)
      → y.places t ≡ idle
      → y.store.opened ≡ true
      → Step y silent (move y t closing (record y.store { opened = false }))
  closes_again : (y : System) (t : ℕ) → y.places t ≡ idle → y.store.opened ≡ false → Step y silent y
  requests :
      (y : System) (t : ℕ)
      → y.places t ≡ closing
      → Step y silent (move y t joining (record y.store { stop_requested = true }))
  joins :
      (y : System) (t : ℕ)
      → y.places t ≡ joining
      → y.cleaner ≡ ended
      → Step y silent (move y t idle (record y.store { cleaner_running = false }))
  -- `cleanerLoop`. `wait_for` returns when its time is over, which may be at any moment, or when it finds
  -- that it is asked to stop; a wake in which neither is so leaves it where it is, and is not a step.
  cleaner_looks :
      (y : System)
      → y.cleaner ≡ looking
      → Step y silent (record y { cleaner = if y.store.stop_requested then ended else waiting })
  cleaner_wakes :
      (y : System)
      → y.cleaner ≡ waiting
      → Step y silent (record y { cleaner = if y.store.stop_requested then ended else testing })
  cleaner_tests :
      (y : System)
      → y.cleaner ≡ testing
      → Step y silent (record y { cleaner = if y.store.opened then locking else looking })
  cleaner_sweeps :
      (y : System) (now_ms : ℕ)
      → y.cleaner ≡ locking
      → IsFree y
      → Step y silent
          (record y { store = swept_store now_ms y.store; cleaner = looking; clock = now_ms })
