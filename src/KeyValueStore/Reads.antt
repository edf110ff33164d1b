-- ===== src/KeyValueStore/Reads.antt =====
-- `get` and the removal of expired entries: what a reader sees is the view of the log.
use mini_kvstore.Prelude.{
  ℕ, ◌≡◌, ◌≢◌, ◌⊎◌, refl, sym, ◌∙◌, true, Option, none, some, Option-cases, Bool-cases, inl, inr,
  List, Bytes, bytes_key, bytes_eq, bytes_eq_iff, arith, if◌then◌else◌,
}
use mini_kvstore.UnorderedMap.{find, IsMap-erase}
use mini_kvstore.Status.{not_found}
use mini_kvstore.Result.{Result, succeed, fail, Result-cases}
use mini_kvstore.Record.{Record, RecordMetadata, is_expired}
use mini_kvstore.LruCache
use mini_kvstore.LruCache.Links.{IsValid}
use mini_kvstore.LruCache.Valid.{get_lem, put_lem, remove_lem}
use mini_kvstore.LruCache.Cached.{cached, cached-get, cached-put, cached_of_remove}
use mini_kvstore.AppendOnlyStore.{Faults, IsHealthy, read_value}
use mini_kvstore.AppendOnlyStore.Reading.{data-read_value, read_value_sound, read_value_healthy}
use mini_kvstore.AppendOnlyStore.Recovery.Log.{encode_all}
use mini_kvstore.KeyValueStore.{Store, drop_key, erase_if_expired, get_live}
use mini_kvstore.KeyValueStore.Slots.{Slot, IsReadable, slot_at, slot_at-Readable}
use mini_kvstore.KeyValueStore.Represents.{Represents, slot_value, view, erase-Agrees}

-- The result of a read of what the log says: the value, or NOT_FOUND where it says nothing.
abbrev pub Answers : Option Bytes → Result Bytes → Type 0
Answers (some value) result = result ≡ succeed value
Answers none (succeed value) = ⊥
Answers none (fail st) = st.code ≡ not_found

-- The same for a read in which a call of the operating system may fail: a value is the right one,
-- and an error is not NOT_FOUND unless the log says nothing.
abbrev pub NeverLies : Option Bytes → Result Bytes → Type 0
NeverLies said (succeed value) = said ≡ some value
NeverLies said (fail st) = (said ≡ none) ⊎ (st.code ≢ not_found)

pub if_same {ℓ} :
    {A : Type ℓ} (key k : Bytes) (f : Bytes → A) → (if bytes_eq key k then f key else f k) ≡ f k
if_same key k f = elim (Bool-cases (bytes_eq key k)) [
  | inl same ↦ rw (same, (bytes_eq_iff key k).0 same)
  | inr other ↦ rw other
]

-- To drop the entry of an expired key changes nothing that the store stands for.
pub drop_key-Represents :
    (now_ms : ℕ) (s : Store) (log : List Record) (key : Bytes) (slot : Slot)
    → slot_at key log ≡ some slot
    → is_expired slot.metadata.expires_at_ms now_ms ≡ true
    → Represents now_ms s log
    → Represents now_ms (drop_key s key) log
drop_key-Represents now_ms s log key slot at expired h = record {
  file = h.file;
  storable = h.storable;
  small = h.small;
  index_map = IsMap-erase key s.index h.index_map;
  index_agrees = λ k. rw (← if_same key k (λ j. slot_at j log)) (
      erase-Agrees now_ms key k s.index (slot_at key log) (slot_at k log) h.index_map
        (rw at expired) (h.index_agrees k));
  cache_valid = (remove_lem s.cache key h.cache_valid).0;
  cache_agrees = λ k v p. h.cache_agrees k v (cached_of_remove s.cache key k v h.cache_valid p).1;
}

module _ (now_ms : ℕ) (s : Store) (log : List Record) (h : Represents now_ms s log) where
  -- An entry of the index is that of the key's slot.
  pub found_slot :
      (key : Bytes) (metadata : RecordMetadata)
      → find key s.index ≡ some metadata
      → (slot : Slot) × (slot_at key log ≡ some slot) × (metadata ≡ slot.metadata)
  found_slot key metadata found = elim (Option-cases (slot_at key log)) [
    | inl nothing ↦ absurd (rw (found, nothing) at (h.index_agrees key))
    | inr (slot, at) ↦ (slot, at, rw (found, at) at (h.index_agrees key))
  ]

  -- A key with no entry is one of which the log says nothing now.
  pub missing_view : (key : Bytes) → find key s.index ≡ none → view now_ms log key ≡ none
  missing_view key missing = elim (Option-cases (slot_at key log)) [
    | inl nothing ↦ rw nothing
    | inr (slot, at) ↦
        let expired : is_expired slot.metadata.expires_at_ms now_ms ≡ true =
          rw (missing, at) at (h.index_agrees key) in
        rw (at, expired)
  ]

  -- `eraseIfExpired` changes nothing that the store stands for.
  pub erase_if_expired-Represents :
      (key : Bytes) → Represents now_ms (erase_if_expired now_ms s key).0 log
  unfolding erase_if_expired
  erase_if_expired-Represents key = elim (Option-cases (find key s.index)) [
    | inl missing ↦ rw (missing, erase_if_expired) h
    | inr (metadata, found) ↦
        let (slot, at, same) = found_slot key metadata found in
        elim (Bool-cases (is_expired metadata.expires_at_ms now_ms)) [
          | inl expired ↦
              rw (found, erase_if_expired, expired)
                (drop_key-Represents now_ms s log key slot at (rw same at expired) h)
          | inr fresh ↦ rw (found, erase_if_expired, fresh) h
        ]
  ]

  -- Another cache and another state of the streams, over the same data file.
  pub refreshed :
      (s' : Store)
      → s'.storage.data_file ≡ some (encode_all log)
      → s'.index ≡ s.index
      → IsValid s'.cache
      → ((k v : Bytes) → cached s'.cache k ≡ some v → slot_value (slot_at k log) ≡ some v)
      → Represents now_ms s' log
  refreshed s' file index valid agrees = record {
    file = file;
    storable = h.storable;
    small = h.small;
    index_map = rw index h.index_map;
    index_agrees = rw index h.index_agrees;
    cache_valid = valid;
    cache_agrees = agrees;
  }

  -- What `get` does for a key with a live slot.
  module _ (f : Faults) (key : Bytes) (slot : Slot) (at : slot_at key log ≡ some slot) where
    looked_up : LruCache.Cache Bytes Bytes
    looked_up = (LruCache.get s.cache key).0

    looked_up-IsValid : IsValid looked_up
    unfolding looked_up
    looked_up-IsValid = (get_lem s.cache key h.cache_valid).0

    looked_up_agrees :
        (k v : Bytes) → cached looked_up k ≡ some v → slot_value (slot_at k log) ≡ some v
    unfolding looked_up
    looked_up_agrees k v p = h.cache_agrees k v (rw (cached-get s.cache key k h.cache_valid) at p)

    filled_agrees :
        (k v : Bytes)
        → cached (LruCache.put looked_up key slot.value) k ≡ some v
        → slot_value (slot_at k log) ≡ some v
    filled_agrees k v p = elim (cached-put looked_up key k slot.value v looked_up-IsValid p) [
      | inl (same, new) ↦ rw (← (bytes_eq_iff key k).0 same) (rw (at, new))
      | inr (other, old) ↦ looked_up_agrees k v old
    ]

    IsReadable-slot : IsReadable (encode_all log) slot
    IsReadable-slot = rw at at (slot_at-Readable key log h.storable h.small)

    read_sound :
        (value : Bytes)
        → (read_value f s.storage slot.metadata).1 ≡ succeed value
        → value ≡ slot.value
    read_sound value p =
        read_value_sound f s.storage slot.metadata (encode_all log) h.file value p
        ∙ IsReadable-slot.0

    kept : (read_value f s.storage slot.metadata).0.data_file ≡ some (encode_all log)
    kept = data-read_value f s.storage slot.metadata (encode_all log) h.file

    hit_value : (value : Bytes) → (LruCache.get s.cache key).1 ≡ some value → value ≡ slot.value
    hit_value value hit =
        let (_, same, _, _) = get_lem s.cache key h.cache_valid in
        let agrees : slot_value (slot_at key log) ≡ some value =
          h.cache_agrees key value (sym same ∙ hit) in
        let agrees' : some slot.value ≡ some value = rw at at agrees in ground arith

    pub get_live-Represents : Represents now_ms (get_live f s key slot.metadata).0 log
    unfolding get_live looked_up
    get_live-Represents = elim (Option-cases (LruCache.get s.cache key).1) [
      | inl miss ↦ elim (Result-cases (read_value f s.storage slot.metadata).1) [
        | inl (value, read) ↦
            rw (miss, get_live, read, read_sound value read)
              (refreshed _ kept refl (put_lem looked_up key slot.value looked_up-IsValid).0
                filled_agrees)
        | inr (st, failed) ↦
            rw (miss, get_live, failed) (refreshed _ kept refl looked_up-IsValid looked_up_agrees)
      ]
      | inr (value, hit) ↦
          rw (hit, get_live) (refreshed _ h.file refl looked_up-IsValid looked_up_agrees)
    ]

    pub get_live_sound :
        (value : Bytes) → (get_live f s key slot.metadata).1 ≡ succeed value → value ≡ slot.value
    unfolding get_live looked_up
    get_live_sound value p = elim (Option-cases (LruCache.get s.cache key).1) [
      | inl miss ↦ ground (arith, read_sound value)
      | inr (v, hit) ↦ ground (arith, hit_value v hit)
    ]

    pub get_live_healthy : IsHealthy f → (get_live f s key slot.metadata).1 ≡ succeed slot.value
    unfolding get_live looked_up
    get_live_healthy healthy = elim (Option-cases (LruCache.get s.cache key).1) [
      | inl miss ↦
          let read =
            read_value_healthy f s.storage slot.metadata (encode_all log) h.file healthy
              IsReadable-slot.2 in
          ground (arith, read, IsReadable-slot.0)
      | inr (v, hit) ↦ ground (arith, hit_value v hit)
    ]
