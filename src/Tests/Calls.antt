-- ===== src/Tests/Calls.antt =====
-- The calls of the store on a store with no records, and on one with one record.
use mini_kvstore.Prelude.{
  ℕ, ◌≡◌, refl, ◌⊎◌, false, true, none, some, [], ◌∷◌, ◌++◌, Bytes, arith, take, bytes_eq,
}
use mini_kvstore.Status.{is_ok, closed}
use mini_kvstore.Record.{Record, is_expired}
use mini_kvstore.AppendOnlyStore.{encode}
use mini_kvstore.AppendOnlyStore.Header.RoundTrip.{IsStorable}
use mini_kvstore.AppendOnlyStore.Recovery.Log.{encode_all}
use mini_kvstore.KeyValueStore.{Store, open_store, set, get, remove, validate_key, validate_value}
use mini_kvstore.KeyValueStore.Slots.{slot_from}
use mini_kvstore.KeyValueStore.Represents.{Represents, Represents-later, view}
use mini_kvstore.KeyValueStore.Reads.{Answers, NeverLies}
use mini_kvstore.KeyValueStore.Get.{get-Represents, get-NeverLies, get-Answers}
use mini_kvstore.KeyValueStore.Writes.{Written, set_record}
use mini_kvstore.KeyValueStore.Setting.{IsAccepted, set-Written, set-Represents, set_cases, get-set}
use mini_kvstore.KeyValueStore.Removing.{Removal, remove-Removal}
use mini_kvstore.KeyValueStore.Removed.{get-remove}
use mini_kvstore.UnorderedMap.{find}
use mini_kvstore.Prelude.{bytes_key}
use mini_kvstore.KeyValueStore.Sweep.{cleanup_expired, keys, compact}
use mini_kvstore.KeyValueStore.Compacting.{Compacted, compact-Compacted}
use mini_kvstore.KeyValueStore.Sweeping.{is_some, cleanup_expired_lem}
use mini_kvstore.KeyValueStore.Keys.{Listed, keys_lem}
use mini_kvstore.KeyValueStore.{exists}
use mini_kvstore.Result.{succeed}
use mini_kvstore.KeyValueStore.Exists.{exists_lem, exists_sound}
use mini_kvstore.KeyValueStore.Opening.{IsOpenable, Restored, open_store-Restored}
use mini_kvstore.KeyValueStore.Crash.{crash_atomic}
use mini_kvstore.Tests.Fixtures.{
  disk, disk-IsHealthy, shut_store, empty_store, empty_store-Represents,
}

abbrev name : Bytes
name = 107 ∷ []

abbrev content : Bytes
content = 118 ∷ []

-- A key that was set with a time to live of ten milliseconds at the time 5.
abbrev short_lived : Record
short_lived = set_record name content 15

name_valid : is_ok (validate_key name) ≡ true
unfolding validate_key
name_valid = refl

accepted : IsAccepted empty_store name content (some 10)
unfolding validate_value
accepted = record { opened = refl; key_valid = name_valid; value_valid = refl; ttl_valid = refl }

-- The store with that key.
abbrev one_key : Store
one_key = (set (disk 100) 5 empty_store name content (some 10)).0

one_key-Represents : Represents 5 one_key (short_lived ∷ [])
one_key-Represents =
    (set-Represents 5 empty_store [] (empty_store-Represents 5) name content (some 10) accepted
      (disk 100) (disk-IsHealthy 100) (omega arith) (omega arith)).1

one_key_opened : one_key.opened ≡ true
one_key_opened =
    (set-Represents 5 empty_store [] (empty_store-Represents 5) name content (some 10) accepted
      (disk 100) (disk-IsHealthy 100) (omega arith) (omega arith)).0

-- The key is there at the time 14 and has expired at the time 15.
get-set_example : Answers (some content) (get (disk 0) 14 one_key name).1
unfolding is_expired bytes_eq
get-set_example =
    get-set 5 14 empty_store [] (empty_store-Represents 5) name content (some 10) accepted
      (disk 100) (disk 0) (disk-IsHealthy 100) (disk-IsHealthy 0) (omega arith) (omega arith)
      (omega arith) (omega arith) name name_valid

get-NeverLies_example :
    NeverLies
      (view 15 (short_lived ∷ []) name)
      (get (record (disk 0) { seek_fails = true }) 15 one_key name).1
get-NeverLies_example =
    get-NeverLies 15 (record (disk 0) { seek_fails = true }) (short_lived ∷ []) one_key
      (Represents-later 15 (omega arith) (omega arith) one_key-Represents) name

get-Answers_example : Answers none (get (disk 0) 15 one_key name).1
unfolding is_expired slot_from bytes_eq
get-Answers_example =
    get-Answers 15 (disk 0) (short_lived ∷ []) one_key
      (Represents-later 15 (omega arith) (omega arith) one_key-Represents) name one_key_opened
      name_valid (disk-IsHealthy 0)

get-Represents_example : Represents 15 (get (disk 0) 15 one_key name).0 (short_lived ∷ [])
get-Represents_example =
    get-Represents 15 (disk 0) (short_lived ∷ []) one_key
      (Represents-later 15 (omega arith) (omega arith) one_key-Represents) name

-- The disk has room for three bytes of the record.
set-Written_example :
    Written 5 empty_store [] short_lived (set (disk 3) 5 empty_store name content (some 10))
set-Written_example =
    set-Written 5 empty_store [] (empty_store-Represents 5) name content (some 10) accepted (disk 3)
      (omega arith)

set_cases_example :
    IsAccepted (shut_store []) name content none
    ⊎ (((set (disk 100) 5 (shut_store []) name content none).0 ≡ shut_store [])
        × ((set (disk 100) 5 (shut_store []) name content none).1.code ≡ closed))
set_cases_example = set_cases (disk 100) 5 (shut_store []) name content none

remove-Removal_example :
    Removal 6 one_key
      (short_lived ∷ [])
      name
      (view 6 (short_lived ∷ []) name)
      (remove (disk 100) 6 one_key name)
remove-Removal_example =
    remove-Removal 6 one_key (short_lived ∷ [])
      (Represents-later 6 (omega arith) (omega arith) one_key-Represents) name one_key_opened
      name_valid (disk 100) (omega arith)

get-remove_example : Answers none (get (disk 0) 7 (remove (disk 100) 6 one_key name).0 name).1
unfolding bytes_eq
get-remove_example =
    get-remove 6 7 one_key (short_lived ∷ [])
      (Represents-later 6 (omega arith) (omega arith) one_key-Represents) name one_key_opened
      name_valid (disk 100) (disk 0) (disk-IsHealthy 100) (disk-IsHealthy 0) (omega arith)
      (omega arith) (omega arith) (omega arith) name name_valid

short_lived-IsStorable : IsStorable short_lived
short_lived-IsStorable = record {
  key_some = omega arith;
  key_fits = omega arith;
  value_fits = omega arith;
  tombstone = λ e. ground arith;
  expiry_word = omega arith;
}

shut_store-IsOpenable : (bytes : Bytes) → IsOpenable (shut_store bytes)
shut_store-IsOpenable bytes = record { shut = refl; interval = refl }

-- A whole record and the first byte of another.
abbrev torn_file : Bytes
torn_file = encode_all (short_lived ∷ []) ++ take 1 (encode short_lived)

open_store-Restored_example :
    Restored 6 (short_lived ∷ []) 1 (open_store (disk 0) (disk 0) 6 none (shut_store torn_file))
open_store-Restored_example =
    open_store-Restored 6 (shut_store torn_file) (short_lived ∷ []) short_lived 1 (disk 0) (disk 0)
      (disk-IsHealthy 0) (disk-IsHealthy 0) (shut_store-IsOpenable torn_file)
      (short_lived-IsStorable, tt) short_lived-IsStorable (omega arith) (omega arith) refl

-- The disk has room for three bytes of the record: the next `open` finds no record.
abbrev crashed : Store
crashed = record (shut_store []) {
  storage = (set (disk 3) 5 empty_store name content (some 10)).0.storage;
}

crash_atomic_example :
    Restored 6 (short_lived ∷ []) 0 (open_store (disk 0) (disk 0) 6 none crashed)
    ⊎ ((is_ok (set (disk 3) 5 empty_store name content (some 10)).1 ≡ false)
        × (n : ℕ) × Restored 6 [] n (open_store (disk 0) (disk 0) 6 none crashed))
crash_atomic_example =
    crash_atomic 5 6 empty_store crashed [] (empty_store-Represents 5) name content (some 10)
      accepted (omega arith) (disk 3) (disk 0) (disk 0) (disk-IsHealthy 0) (disk-IsHealthy 0)
      (record { shut = refl; interval = refl }) refl

-- The key has expired at the time 15.
cleanup_expired_lem_example :
    Represents 15 (cleanup_expired 15 one_key).0 (short_lived ∷ [])
    × ((k : Bytes)
        → is_some (find k (cleanup_expired 15 one_key).0.index)
          ≡ is_some (view 15 (short_lived ∷ []) k))
cleanup_expired_lem_example =
    cleanup_expired_lem 15 one_key (short_lived ∷ [])
      (Represents-later 15 (omega arith) (omega arith) one_key-Represents) one_key_opened

keys_lem_example : Listed 6 (short_lived ∷ []) [] (keys 6 one_key [])
keys_lem_example =
    keys_lem 6 one_key (short_lived ∷ [])
      (Represents-later 6 (omega arith) (omega arith) one_key-Represents) one_key_opened []

expired_name : (exists (disk 0) 15 one_key name).1 ≡ succeed false
unfolding is_expired slot_from bytes_eq
expired_name =
    (exists_lem 15 (disk 0) (short_lived ∷ []) one_key
      (Represents-later 15 (omega arith) (omega arith) one_key-Represents) name one_key_opened
      name_valid (disk-IsHealthy 0)).1

exists_sound_example : false ≡ is_some (view 15 (short_lived ∷ []) name)
exists_sound_example =
    exists_sound 15 (disk 0) (short_lived ∷ []) one_key
      (Represents-later 15 (omega arith) (omega arith) one_key-Represents) name false expired_name

exists_lem_example :
    Represents 14 (exists (disk 0) 14 one_key name).0 (short_lived ∷ [])
    × ((exists (disk 0) 14 one_key name).1 ≡ succeed (is_some (view 14 (short_lived ∷ []) name)))
exists_lem_example =
    exists_lem 14 (disk 0) (short_lived ∷ []) one_key
      (Represents-later 14 (omega arith) (omega arith) one_key-Represents) name one_key_opened
      name_valid (disk-IsHealthy 0)

compact-Compacted_example :
    Compacted 6 15 (short_lived ∷ []) (compact (λ key. disk 0) (disk 100) 6 one_key)
compact-Compacted_example =
    compact-Compacted 6 15 (short_lived ∷ []) (omega arith) (omega arith) (λ key. disk 0) (disk 100)
      one_key (Represents-later 6 (omega arith) (omega arith) one_key-Represents) one_key_opened
