-- ===== src/KeyValueStore/Threads/Invariant.antt =====
-- What the threads may rely on between their steps.
use mini_kvstore.Prelude.{
  ℕ, ◌^◌, ◌≤◌, ◌<◌, ◌≡◌, ◌==◌, refl, sym, ◌∙◌, false, Bytes, bytes_key, bytes_eq_iff, List, none,
  some, Bool-cases, Option-cases, inl, inr, arith, if◌then◌else◌,
}
use mini_kvstore.UnorderedMap.{find}
use mini_kvstore.Result.{succeed}
use mini_kvstore.Record.{Record, RecordMetadata, is_expired}
use mini_kvstore.LruCache
use mini_kvstore.LruCache.Valid.{get_lem, put_lem}
use mini_kvstore.LruCache.Cached.{cached-get, cached-put}
use mini_kvstore.AppendOnlyStore.{Faults, read_value}
use mini_kvstore.AppendOnlyStore.Header.RoundTrip.{IsStorable}
use mini_kvstore.AppendOnlyStore.Reading.{data-read_value, read_value_sound}
use mini_kvstore.AppendOnlyStore.Recovery.Log.{encode_all}
use mini_kvstore.KeyValueStore.{Store, erase_if_expired}
use mini_kvstore.KeyValueStore.Slots.{Slot, IsReadable, slot_at, slot_at-Readable}
use mini_kvstore.KeyValueStore.Represents.{Represents, slot_value, view, is_expired_mono}
use mini_kvstore.KeyValueStore.Reads.{found_slot, refreshed, drop_key-Represents}
use mini_kvstore.KeyValueStore.Writes.{set_record}
use mini_kvstore.KeyValueStore.Threads.{
  Place, idle, found, missed, loaded, outdated, setting, closing, joining, is_reading, System,
  Label, silent, answered, denied, with_cache, with_storage,
}

-- What a thread knows where it is.
abbrev pub IsGood : ℕ → List Record → Place → Type 0
IsGood clock history idle = Unit
IsGood clock history (found key metadata) =
    (slot : Slot) × (slot_at key history ≡ some slot) × (metadata ≡ slot.metadata)
IsGood clock history (missed key metadata) =
    (slot : Slot) × (slot_at key history ≡ some slot) × (metadata ≡ slot.metadata)
IsGood clock history (loaded key metadata value) =
    (slot : Slot) × (slot_at key history ≡ some slot) × (value ≡ slot.value)
IsGood clock history (outdated key now_ms) = now_ms ≤ clock
IsGood clock history (setting key value expires_at_ms) =
    IsStorable (set_record key value expires_at_ms)
IsGood clock history closing = Unit
IsGood clock history joining = Unit

-- The store stands for the history, the clock is a time, and every thread knows what it should.
pub record Sound (y : System) : Type 0 where
  pub stands : Represents y.clock y.store y.history
  pub word : y.clock < 2 ^ 63
  pub good : (t : ℕ) → IsGood y.clock y.history (y.places t)

-- A value that a call returns is the last that the history has for the key, and NOT_FOUND means that the
-- history gives the key no value at the time.
abbrev pub IsRight : System → Label → Type 0
IsRight y silent = Unit
IsRight y (answered key value) = slot_value (slot_at key y.history) ≡ some value
IsRight y (denied key) = view y.clock y.history key ≡ none

-- Time may pass, and the history may change behind threads that read nothing.
pub IsGood-later :
    (clock now_ms : ℕ) (history : List Record) (p : Place)
    → clock ≤ now_ms
    → IsGood clock history p
    → IsGood now_ms history p
IsGood-later clock now_ms history idle le h = tt
IsGood-later clock now_ms history (found key metadata) le h = h
IsGood-later clock now_ms history (missed key metadata) le h = h
IsGood-later clock now_ms history (loaded key metadata value) le h = h
IsGood-later clock now_ms history (outdated key time) le h = omega (arith, h)
IsGood-later clock now_ms history (setting key value expires_at_ms) le h = h
IsGood-later clock now_ms history closing le h = tt
IsGood-later clock now_ms history joining le h = tt

pub IsGood-free :
    (clock : ℕ) (history history' : List Record) (p : Place)
    → is_reading p ≡ false
    → IsGood clock history p
    → IsGood clock history' p
IsGood-free clock history history' idle free h = tt
IsGood-free clock history history' (found key metadata) free h = absurd (ground (arith, free))
IsGood-free clock history history' (missed key metadata) free h = absurd (ground (arith, free))
IsGood-free clock history history' (loaded key metadata value) free h =
    absurd (ground (arith, free))
IsGood-free clock history history' (outdated key time) free h = h
IsGood-free clock history history' (setting key value expires_at_ms) free h = h
IsGood-free clock history history' closing free h = tt
IsGood-free clock history history' joining free h = tt

-- Thread `t` is at `place`, and the others are where they were.
pub moved-IsGood :
    (clock : ℕ) (history : List Record) (places : ℕ → Place) (t : ℕ) (place : Place)
    → ((i : ℕ) → IsGood clock history (places i))
    → IsGood clock history place
    → (i : ℕ) → IsGood clock history (if i == t then place else places i)
moved-IsGood clock history places t place h p i = elim (Bool-cases (i == t)) [
  | inl same ↦ rw same p
  | inr other ↦ rw other (h i)
]

pub moved_free :
    (places : ℕ → Place) (t : ℕ)
    → ((i : ℕ) → is_reading (places i) ≡ false)
    → (i : ℕ) → is_reading (if i == t then idle else places i) ≡ false
moved_free places t free i = elim (Bool-cases (i == t)) [
  | inl same ↦ rw same refl
  | inr other ↦ rw other (free i)
]

module _ (clock : ℕ) (s : Store) (log : List Record) (h : Represents clock s log) where
  -- A hit of the cache, and the cache behind it.
  pub hit_right :
      (key value : Bytes)
      → (LruCache.get s.cache key).1 ≡ some value
      → slot_value (slot_at key log) ≡ some value
  hit_right key value hit =
      let (_, same, _, _) = get_lem s.cache key h.cache_valid in
      h.cache_agrees key value (sym same ∙ hit)

  pub looked_up-Represents :
      (key : Bytes) → Represents clock (with_cache s (LruCache.get s.cache key).0) log
  looked_up-Represents key =
      refreshed clock s log h _ h.file refl (get_lem s.cache key h.cache_valid).0
        (λ k v p. h.cache_agrees k v (rw (cached-get s.cache key k h.cache_valid) at p))

  -- The cache with the value of a slot.
  pub filled-Represents :
      (key value : Bytes)
      → slot_value (slot_at key log) ≡ some value
      → Represents clock (with_cache s (LruCache.put s.cache key value)) log
  filled-Represents key value said =
      refreshed clock s log h _ h.file refl (put_lem s.cache key value h.cache_valid).0 (λ k v p.
        elim (cached-put s.cache key k value v h.cache_valid p) [
          | inl (same, new) ↦ rw (← (bytes_eq_iff key k).0 same, new) said
          | inr (other, old) ↦ h.cache_agrees k v old
        ])

  pub read-Represents :
      (f : Faults) (metadata : RecordMetadata)
      → Represents clock (with_storage s (read_value f s.storage metadata).0) log
  read-Represents f metadata =
      refreshed clock s log h _ (data-read_value f s.storage metadata (encode_all log) h.file) refl
        h.cache_valid h.cache_agrees

  pub read_right :
      (f : Faults) (key value : Bytes) (metadata : RecordMetadata) (slot : Slot)
      → slot_at key log ≡ some slot
      → metadata ≡ slot.metadata
      → (read_value f s.storage metadata).1 ≡ succeed value
      → value ≡ slot.value
  read_right f key value metadata slot at same read =
      let readable : IsReadable (encode_all log) slot =
        rw at at (slot_at-Readable key log h.storable h.small) in
      read_value_sound f s.storage metadata (encode_all log) h.file value read
      ∙ (rw same readable.0)

  -- `eraseIfExpired` with a time that has passed.
  pub erased-Represents :
      (now_ms : ℕ) (key : Bytes)
      → now_ms ≤ clock
      → clock < 2 ^ 63
      → Represents clock (erase_if_expired now_ms s key).0 log
  unfolding erase_if_expired
  erased-Represents now_ms key past word = elim (Option-cases (find key s.index)) [
    | inl missing ↦ rw (missing, erase_if_expired) h
    | inr (metadata, there) ↦
        let (slot, at, same) = found_slot clock s log h key metadata there in
        elim (Bool-cases (is_expired metadata.expires_at_ms now_ms)) [
          | inl expired ↦
              rw (there, erase_if_expired, expired)
                (drop_key-Represents clock s log key slot at
                  (rw same at
                    (is_expired_mono metadata.expires_at_ms now_ms clock past word expired))
                  h)
          | inr fresh ↦ rw (there, erase_if_expired, fresh) h
        ]
  ]
