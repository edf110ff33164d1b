-- ===== src/KeyValueStore/Writes.antt =====
-- `set` and `remove` against the log that the store stands for.
use mini_kvstore.Prelude.{
  ℕ, ◌+◌, ◌^◌, ◌≤◌, ◌<◌, ◌≡◌, refl, sym, ap, ◌∙◌, true, false, some, inl, inr, ◌⊎◌, List, [], ◌∷◌,
  ◌++◌, All, Bytes, bytes_key, arith, length, take,
}
use mini_kvstore.UnorderedMap.{assign, IsMap-assign}
use mini_kvstore.Status.{Status, is_ok, success}
use mini_kvstore.Result.{succeed, fail}
use mini_kvstore.Record.{Operation, Record}
use mini_kvstore.LruCache
use mini_kvstore.LruCache.Valid.{put_lem}
use mini_kvstore.LruCache.Cached.{cached, cached-put}
use mini_kvstore.AppendOnlyStore.{
  Faults, Storage, IsHealthy, append_set, encode, record_size, metadata_of,
}
use mini_kvstore.AppendOnlyStore.Header.RoundTrip.{IsStorable}
use mini_kvstore.AppendOnlyStore.Appending.{
  Appended, append_record_locked_lem, append_record_locked_healthy,
}
use mini_kvstore.AppendOnlyStore.Recovery.Log.{encode_all, log_size, length-encode_all}
use mini_kvstore.KeyValueStore.{Store, set_locked, bump}
use mini_kvstore.KeyValueStore.Slots.{slot_at, slot_at-append, encode_all-append, log_size-append}
use mini_kvstore.KeyValueStore.Represents.{Represents, slot_value, assign-Agrees}

pub All-append :
    (log : List Record) (r : Record)
    → All IsStorable log
    → IsStorable r
    → All IsStorable (log ++ r ∷ [])
All-append [] r hs h = (h, tt)
All-append (q ∷ log) r hs h = (hs.0, All-append log r hs.1 h)

abbrev pub set_record : Bytes → Bytes → ℕ → Record
set_record key value expires_at_ms = record {
  operation = Operation.set;
  key = key;
  value = value;
  expires_at_ms = expires_at_ms;
}

-- How the write of a record ends: the record is in the log, or the status is an error and the store
-- has changed in nothing but the state of its files, with some part of the record behind the log.
abbrev pub Written : ℕ → Store → List Record → Record → Store × Status → Type 0
Written now_ms s log r outcome =
    ((outcome.1 ≡ success)
      × (outcome.0.opened ≡ s.opened)
      × Represents now_ms outcome.0 (log ++ r ∷ []))
    ⊎ ((is_ok outcome.1 ≡ false)
        × (n : ℕ) × (storage : Storage) × (n ≤ record_size r)
        × (outcome.0 ≡ record s { storage = storage })
        × (storage.data_file ≡ some (encode_all log ++ take n (encode r))))

module _ (now_ms : ℕ) (s : Store) (log : List Record) (h : Represents now_ms s log)
    (key value : Bytes) (expires_at_ms : ℕ)
    (storable : IsStorable (set_record key value expires_at_ms)) where
  abbrev appended : Record
  appended = set_record key value expires_at_ms

  -- The store after a record of the key was appended and entered in the index and the cache.
  set_store : Storage → Store
  set_store storage = record s {
    storage = storage;
    index = assign key (metadata_of appended (log_size log)) s.index;
    cache = LruCache.put s.cache key value;
    set_operations = bump s.set_operations;
  }

  set_cache_agrees :
      (k v : Bytes)
      → cached (LruCache.put s.cache key value) k ≡ some v
      → slot_value (slot_at k (log ++ appended ∷ [])) ≡ some v
  set_cache_agrees k v p = elim (cached-put s.cache key k value v h.cache_valid p) [
    | inl (same, new) ↦ rw (slot_at-append k log appended, same, new) refl
    | inr (other, old) ↦ rw (slot_at-append k log appended, other) (h.cache_agrees k v old)
  ]

  set_store-Represents :
      (storage : Storage)
      → storage.data_file ≡ some (encode_all log ++ encode appended)
      → log_size log + record_size appended < 2 ^ 64
      → Represents now_ms (set_store storage) (log ++ appended ∷ [])
  unfolding set_store
  set_store-Represents storage file small = record {
    file = file ∙ ap some (sym (encode_all-append log appended));
    storable = All-append log appended h.storable storable;
    small = rw (log_size-append log appended) small;
    index_map = IsMap-assign key (metadata_of appended (log_size log)) s.index h.index_map;
    index_agrees = λ k. rw (slot_at-append k log appended) (
        assign-Agrees now_ms key k s.index (metadata_of appended (log_size log)) value
          (slot_at k log) (h.index_agrees k));
    cache_valid = (put_lem s.cache key value h.cache_valid).0;
    cache_agrees = set_cache_agrees;
  }

  -- The metadata that the append returns are those of the record at the end of the log.
  at_end : metadata_of appended (length (encode_all log)) ≡ metadata_of appended (log_size log)
  at_end = ap (metadata_of appended) (length-encode_all log)

  set_locked_ok :
      (f : Faults)
      → s.opened ≡ true
      → (append_set f s.storage key value expires_at_ms).1
        ≡ succeed (metadata_of appended (length (encode_all log)))
      → set_locked f s key value expires_at_ms
        ≡ (set_store (append_set f s.storage key value expires_at_ms).0, success)
  unfolding set_locked set_store
  set_locked_ok f opened e = ground (arith, at_end)

  set_locked_failed :
      (f : Faults) (st : Status)
      → s.opened ≡ true
      → (append_set f s.storage key value expires_at_ms).1 ≡ fail st
      → set_locked f s key value expires_at_ms
        ≡ (record s { storage = (append_set f s.storage key value expires_at_ms).0 }, st)
  unfolding set_locked
  set_locked_failed f st opened e = ground arith

  set_appended :
      (f : Faults)
      → Appended (encode_all log) appended (append_set f s.storage key value expires_at_ms)
  unfolding append_set
  set_appended f = append_record_locked_lem f s.storage appended (encode_all log) storable h.file

  -- How the write of a record to an open store ends: it is in the log, or the status is an error, and the store has
  -- changed in nothing but the state of its files, in which some part of the record stands behind the
  -- log.
  pub set_locked_lem :
      (f : Faults)
      → s.opened ≡ true
      → log_size log + record_size appended < 2 ^ 64
      → Written now_ms s log appended (set_locked f s key value expires_at_ms)
  unfolding set_store
  set_locked_lem f opened small = elim (set_appended f) [
    | inl (ok, file) ↦
        rw (set_locked_ok f opened ok) (inl (refl, refl, set_store-Represents _ file small))
    | inr (st, n, failed, wrong, part, file) ↦
        rw (set_locked_failed f st opened failed) (inr (wrong, n, _, part, refl, file))
  ]

  pub set_locked_healthy :
      (f : Faults)
      → s.opened ≡ true
      → IsHealthy f
      → record_size appended ≤ f.room
      → (set_locked f s key value expires_at_ms).1 ≡ success
  unfolding append_set
  set_locked_healthy f opened healthy room =
      ap (λ (o : Store × Status). o.1)
        (set_locked_ok f opened (
          append_record_locked_healthy f s.storage appended (encode_all log) storable h.file healthy
            room))
