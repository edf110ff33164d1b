-- ===== src/KeyValueStore/Removing.antt =====
-- `remove` as the client calls it, and `get` behind it.
use mini_kvstore.Prelude.{
  ℕ, ◌+◌, ◌^◌, ◌≤◌, ◌<◌, ◌≡◌, refl, sym, ap, ◌∙◌, true, false, Option, none, some, Bool-cases,
  Option-cases, inl, inr, List, [], ◌∷◌, ◌++◌, Bytes, bytes_key, arith, text,
}
use mini_kvstore.UnorderedMap.{find, erase, IsMap-erase}
use mini_kvstore.Status.{Status, is_ok, success, not_found, not_found_status}
use mini_kvstore.Result.{succeed, fail}
use mini_kvstore.Record.{Operation, Record, RecordMetadata, is_expired}
use mini_kvstore.LruCache
use mini_kvstore.LruCache.Valid.{remove_lem}
use mini_kvstore.LruCache.Cached.{cached, cached_of_remove}
use mini_kvstore.AppendOnlyStore.{
  Faults, Storage, IsHealthy, append_delete, append_record_locked, encode, record_size,
}
use mini_kvstore.AppendOnlyStore.Header.RoundTrip.{IsStorable}
use mini_kvstore.AppendOnlyStore.Appending.{
  Appended, append_record_locked_lem, append_record_locked_healthy,
}
use mini_kvstore.AppendOnlyStore.Recovery.Log.{encode_all, log_size}
use mini_kvstore.KeyValueStore.{Store, drop_key, remove_found, remove, validate_key, bump}
use mini_kvstore.KeyValueStore.Slots.{slot_at, slot_at-append, encode_all-append, log_size-append}
use mini_kvstore.KeyValueStore.Represents.{Represents, slot_value, view, erase-Agrees}
use mini_kvstore.KeyValueStore.Reads.{found_slot, missing_view, drop_key-Represents}
use mini_kvstore.KeyValueStore.Writes.{Written, All-append}
use mini_kvstore.KeyValueStore.Setting.{valid_key_lem}

abbrev pub delete_record : Bytes → Record
delete_record key = record {
  operation = Operation.delete;
  key = key;
  value = [];
  expires_at_ms = 0;
}

delete-IsStorable : (key : Bytes) → is_ok (validate_key key) ≡ true → IsStorable (delete_record key)
delete-IsStorable key valid = record {
  key_some = (valid_key_lem key valid).0;
  key_fits = (valid_key_lem key valid).1;
  value_fits = omega arith;
  tombstone = λ e. refl;
  expiry_word = omega arith;
}

module _ (now_ms : ℕ) (s : Store) (log : List Record) (h : Represents now_ms s log) (key : Bytes)
    (valid : is_ok (validate_key key) ≡ true) where
  -- The store after a delete record was appended and the key was dropped.
  removed_store : Storage → Store
  removed_store storage = record s {
    storage = storage;
    cache = LruCache.remove s.cache key;
    index = erase key s.index;
    delete_operations = bump s.delete_operations;
  }

  removed_cache_agrees :
      (k v : Bytes)
      → cached (LruCache.remove s.cache key) k ≡ some v
      → slot_value (slot_at k (log ++ delete_record key ∷ [])) ≡ some v
  removed_cache_agrees k v p =
      let (other, old) = cached_of_remove s.cache key k v h.cache_valid p in
      rw (slot_at-append k log (delete_record key), other) (h.cache_agrees k v old)

  removed_store-Represents :
      (storage : Storage)
      → storage.data_file ≡ some (encode_all log ++ encode (delete_record key))
      → log_size log + record_size (delete_record key) < 2 ^ 64
      → Represents now_ms (removed_store storage) (log ++ delete_record key ∷ [])
  unfolding removed_store
  removed_store-Represents storage file small = record {
    file = file ∙ ap some (sym (encode_all-append log (delete_record key)));
    storable = All-append log (delete_record key) h.storable (delete-IsStorable key valid);
    small = rw (log_size-append log (delete_record key)) small;
    index_map = IsMap-erase key s.index h.index_map;
    index_agrees = λ k.
        rw (slot_at-append k log (delete_record key)) (
          erase-Agrees now_ms key k s.index none (slot_at k log) h.index_map tt (h.index_agrees k));
    cache_valid = (remove_lem s.cache key h.cache_valid).0;
    cache_agrees = removed_cache_agrees;
  }

  remove-Appended :
      (f : Faults)
      → Appended
          (encode_all log)
          (delete_record key)
          (append_record_locked f s.storage (delete_record key))
  remove-Appended f =
      append_record_locked_lem f s.storage (delete_record key) (encode_all log)
        (delete-IsStorable key valid) h.file

  module _ (f : Faults) (metadata : RecordMetadata)
      (fresh : is_expired metadata.expires_at_ms now_ms ≡ false) where
    removed_ok :
        (m : RecordMetadata)
        → (append_record_locked f s.storage (delete_record key)).1 ≡ succeed m
        → remove_found f now_ms s key metadata
          ≡ (removed_store (append_record_locked f s.storage (delete_record key)).0, success)
    unfolding remove_found append_delete removed_store
    removed_ok m e = ground arith

    removed_failed :
        (st : Status)
        → (append_record_locked f s.storage (delete_record key)).1 ≡ fail st
        → is_ok st ≡ false
        → remove_found f now_ms s key metadata
          ≡ (record s { storage = (append_record_locked f s.storage (delete_record key)).0 }, st)
    unfolding remove_found append_delete
    removed_failed st e wrong = ground arith

    pub removed-Written :
        log_size log + record_size (delete_record key) < 2 ^ 64
        → Written now_ms s log (delete_record key) (remove_found f now_ms s key metadata)
    unfolding removed_store
    removed-Written small = elim (remove-Appended f) [
      | inl (ok, file) ↦
          rw (removed_ok _ ok) (inl (refl, refl, removed_store-Represents _ file small))
      | inr (st, n, failed, wrong, le, file) ↦
          rw (removed_failed st failed wrong) (inr (wrong, n, _, le, refl, file))
    ]

    removed_healthy :
        IsHealthy f
        → record_size (delete_record key) ≤ f.room
        → (remove_found f now_ms s key metadata).1 ≡ success
    removed_healthy healthy room =
        ap (λ (o : Store × Status). o.1)
          (removed_ok _ (
            append_record_locked_healthy f s.storage (delete_record key) (encode_all log)
              (delete-IsStorable key valid) h.file healthy room))

-- How `remove` ends for a key to which the log gives a value, and for one to which it gives none.
abbrev pub Removal : ℕ → Store → List Record → Bytes → Option Bytes → Store × Status → Type 0
Removal now_ms s log key (some value) outcome = Written now_ms s log (delete_record key) outcome
Removal now_ms s log key none outcome =
    (outcome.1.code ≡ not_found) × (outcome.0.opened ≡ s.opened) × Represents now_ms outcome.0 log

module _ (now_ms : ℕ) (s : Store) (log : List Record) (h : Represents now_ms s log) (key : Bytes)
    (opened : s.opened ≡ true) (valid : is_ok (validate_key key) ≡ true) (f : Faults) where
  remove_missing :
      find key s.index ≡ none
      → ((remove f now_ms s key).0 ≡ s) × ((remove f now_ms s key).1.code ≡ not_found)
  unfolding remove
  remove_missing missing = (ground arith, ground arith)

  remove_present :
      (metadata : RecordMetadata)
      → find key s.index ≡ some metadata
      → remove f now_ms s key ≡ remove_found f now_ms s key metadata
  unfolding remove
  remove_present metadata found = ground arith

  remove_expired :
      (metadata : RecordMetadata)
      → is_expired metadata.expires_at_ms now_ms ≡ true
      → remove_found f now_ms s key metadata
        ≡ (drop_key s key, not_found_status (text "key has expired"))
  unfolding remove_found
  remove_expired metadata expired = rw expired refl

  pub remove_gone :
      view now_ms log key ≡ none → Removal now_ms s log key none (remove f now_ms s key)
  remove_gone gone = elim (Option-cases (find key s.index)) [
    | inl missing ↦
        let (same, code) = remove_missing missing in
        (code, ap (λ (o : Store). o.opened) same, rw same h)
    | inr (metadata, found) ↦
        let (slot, at, agrees) = found_slot now_ms s log h key metadata found in
        elim (Bool-cases (is_expired metadata.expires_at_ms now_ms)) [
          | inl expired ↦
              rw (remove_present metadata found, remove_expired metadata expired)
                (refl, refl, drop_key-Represents now_ms s log key slot at (rw agrees at expired) h)
          | inr fresh ↦
              let there : view now_ms log key ≡ some slot.value = rw (at, ← agrees, fresh) refl in
              absurd (ground (arith, gone))
        ]
  ]

  -- On an open store that stands for a log, where the log with a delete record is shorter than 2
  -- ^ 64 bytes, whatever calls of the operating system fail in a `remove` of a valid key: where
  -- the log gives the key no value, the status is NOT_FOUND and the store stands for the same
  -- log; where it gives one, either the status is success and the store stands for the log with a
  -- delete record behind it, or it is an error and the store has changed in nothing but its
  -- files, in which the first bytes of the delete record, from none to all, stand behind the log.
  pub remove-Removal :
      log_size log + record_size (delete_record key) < 2 ^ 64
      → Removal now_ms s log key (view now_ms log key) (remove f now_ms s key)
  remove-Removal small = elim (Option-cases (find key s.index)) [
    | inl missing ↦ let gone = missing_view now_ms s log h key missing in rw gone (remove_gone gone)
    | inr (metadata, found) ↦
        let (slot, at, agrees) = found_slot now_ms s log h key metadata found in
        elim (Bool-cases (is_expired metadata.expires_at_ms now_ms)) [
          | inl expired ↦
              let gone : view now_ms log key ≡ none = rw (at, ← agrees, expired) refl in
              rw gone (remove_gone gone)
          | inr fresh ↦
              let there : view now_ms log key ≡ some slot.value = rw (at, ← agrees, fresh) refl in
              rw (there, remove_present metadata found)
                (removed-Written now_ms s log h key valid f metadata fresh small)
        ]
  ]

  pub remove_healthy :
      (value : Bytes)
      → view now_ms log key ≡ some value
      → IsHealthy f
      → record_size (delete_record key) ≤ f.room
      → (remove f now_ms s key).1 ≡ success
  remove_healthy value there healthy room = elim (Option-cases (find key s.index)) [
    | inl missing ↦ absurd (ground (arith, missing_view now_ms s log h key missing))
    | inr (metadata, found) ↦
        let (slot, at, agrees) = found_slot now_ms s log h key metadata found in
        elim (Bool-cases (is_expired metadata.expires_at_ms now_ms)) [
          | inl expired ↦
              let gone : view now_ms log key ≡ none = rw (at, ← agrees, expired) refl in
              absurd (ground (arith, gone))
          | inr fresh ↦
              rw (remove_present metadata found)
                (removed_healthy now_ms s log h key valid f metadata fresh healthy room)
        ]
  ]
