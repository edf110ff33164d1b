-- ===== src/KeyValueStore/Sweeping.antt =====
-- `cleanupExpired` against the log that the store stands for.
use mini_kvstore.Prelude.{
  ℕ, ◌≡◌, refl, Bool, true, false, Option, none, some, Bool-cases, inl, inr, List, [], ◌∷◌, Bytes,
  bytes_key, bytes_eq, bytes_eq_iff, arith, if◌then◌else◌, ◌+◌,
}
use mini_kvstore.UnorderedMap.{find, IsMap, IsAbsent-find, find_absent}
use mini_kvstore.Record.{Record, RecordMetadata, is_expired}
use mini_kvstore.LruCache
use mini_kvstore.LruCache.{Cache}
use mini_kvstore.LruCache.Links.{IsValid}
use mini_kvstore.LruCache.Valid.{remove_lem}
use mini_kvstore.LruCache.Cached.{cached, cached_of_remove}
use mini_kvstore.AppendOnlyStore.Recovery.{Index}
use mini_kvstore.KeyValueStore.{Store}
use mini_kvstore.KeyValueStore.Slots.{Slot, slot_at}
use mini_kvstore.KeyValueStore.Represents.{Represents, Agrees, live, view}
use mini_kvstore.KeyValueStore.Sweep.{sweep, swept_store, cleanup_expired}

-- What is left of an entry.
abbrev pub fresh : ℕ → Option RecordMetadata → Option RecordMetadata
fresh now_ms none = none
fresh now_ms (some metadata) =
    if is_expired metadata.expires_at_ms now_ms then none else some metadata

-- One round of the loop.
sweep_expired :
    (now_ms : ℕ) (key : Bytes) (metadata : RecordMetadata) (rest : Index)
    (cache : Cache Bytes Bytes)
    → is_expired metadata.expires_at_ms now_ms ≡ true
    → sweep now_ms ((key, metadata) ∷ rest) cache ≡ (
        let swept = sweep now_ms rest (LruCache.remove cache key) in
        record swept { removed = swept.removed + 1 })
unfolding sweep
sweep_expired now_ms key metadata rest cache expired = rw expired refl

sweep_fresh :
    (now_ms : ℕ) (key : Bytes) (metadata : RecordMetadata) (rest : Index)
    (cache : Cache Bytes Bytes)
    → is_expired metadata.expires_at_ms now_ms ≡ false
    → sweep now_ms ((key, metadata) ∷ rest) cache ≡ (
        let swept = sweep now_ms rest cache in
        record swept { index = (key, metadata) ∷ swept.index })
unfolding sweep
sweep_fresh now_ms key metadata rest cache kept = rw kept refl

-- The loop leaves the entries that have not expired, each key once.
pub find-sweep :
    (now_ms : ℕ) (k : Bytes) (index : Index) (cache : Cache Bytes Bytes)
    → IsMap index
    → find k (sweep now_ms index cache).index ≡ fresh now_ms (find k index)
unfolding find
find-sweep now_ms k [] cache m = unfold sweep in refl
find-sweep now_ms k ((key, metadata) ∷ rest) cache m =
    elim (Bool-cases (is_expired metadata.expires_at_ms now_ms)) [
      | inl expired ↦
          let again = find-sweep now_ms k rest (LruCache.remove cache key) m.1 in
          rw (sweep_expired now_ms key metadata rest cache expired)
            (elim (Bool-cases (bytes_eq key k)) [
              | inl same ↦
                  let gone : find k rest ≡ none =
                    rw ((bytes_eq_iff key k).0 same) at (find_absent key rest m.0) in
                  rw (again, gone, same, expired) refl
              | inr other ↦ rw other again
            ])
      | inr kept ↦
          let again = find-sweep now_ms k rest cache m.1 in
          rw (sweep_fresh now_ms key metadata rest cache kept) (elim (Bool-cases (bytes_eq key k)) [
            | inl same ↦ rw (same, kept) refl
            | inr other ↦ rw other again
          ])
    ]

pub sweep-IsMap :
    (now_ms : ℕ) (index : Index) (cache : Cache Bytes Bytes)
    → IsMap index
    → IsMap (sweep now_ms index cache).index
sweep-IsMap now_ms [] cache m = unfold sweep in tt
sweep-IsMap now_ms ((key, metadata) ∷ rest) cache m =
    elim (Bool-cases (is_expired metadata.expires_at_ms now_ms)) [
      | inl expired ↦
          rw (sweep_expired now_ms key metadata rest cache expired)
            (sweep-IsMap now_ms rest (LruCache.remove cache key) m.1)
      | inr kept ↦
          let absent : find key (sweep now_ms rest cache).index ≡ none =
            rw (find-sweep now_ms key rest cache m.1, find_absent key rest m.0) refl in
          rw (sweep_fresh now_ms key metadata rest cache kept)
            (IsAbsent-find key _ absent, sweep-IsMap now_ms rest cache m.1)
    ]

-- The loop keeps the cache valid and puts nothing into it.
pub sweep-IsValid :
    (now_ms : ℕ) (index : Index) (cache : Cache Bytes Bytes)
    → IsValid cache
    → IsValid (sweep now_ms index cache).cache
sweep-IsValid now_ms [] cache h = unfold sweep in h
sweep-IsValid now_ms ((key, metadata) ∷ rest) cache h =
    elim (Bool-cases (is_expired metadata.expires_at_ms now_ms)) [
      | inl expired ↦
          rw (sweep_expired now_ms key metadata rest cache expired)
            (sweep-IsValid now_ms rest (LruCache.remove cache key) (remove_lem cache key h).0)
      | inr kept ↦
          rw (sweep_fresh now_ms key metadata rest cache kept) (sweep-IsValid now_ms rest cache h)
    ]

pub cached-sweep :
    (now_ms : ℕ) (index : Index) (cache : Cache Bytes Bytes) (k v : Bytes)
    → IsValid cache
    → cached (sweep now_ms index cache).cache k ≡ some v
    → cached cache k ≡ some v
cached-sweep now_ms [] cache k v h p = unfold sweep in p
cached-sweep now_ms ((key, metadata) ∷ rest) cache k v h p =
    elim (Bool-cases (is_expired metadata.expires_at_ms now_ms)) [
      | inl expired ↦
          (cached_of_remove cache key k v h (
            cached-sweep now_ms rest (LruCache.remove cache key) k v (remove_lem cache key h).0
              (rw (sweep_expired now_ms key metadata rest cache expired) at p))).1
      | inr kept ↦
          cached-sweep now_ms rest cache k v h
            (rw (sweep_fresh now_ms key metadata rest cache kept) at p)
    ]

abbrev pub is_some {ℓ} : {A : Type ℓ} → Option A → Bool
is_some none = false
is_some (some x) = true

module _ (now_ms : ℕ) (s : Store) (log : List Record) (h : Represents now_ms s log) where
  swept-Agrees :
      (found : Option RecordMetadata) (slot : Option Slot)
      → Agrees now_ms found slot
      → Agrees now_ms (fresh now_ms found) slot
  swept-Agrees none slot a = a
  swept-Agrees (some metadata) none a = absurd a
  swept-Agrees (some metadata) (some slot) a =
      elim (Bool-cases (is_expired metadata.expires_at_ms now_ms)) [
        | inl expired ↦ rw expired (rw a at expired)
        | inr kept ↦ rw kept a
      ]

  left_is_live :
      (found : Option RecordMetadata) (slot : Option Slot)
      → Agrees now_ms found slot
      → is_some (fresh now_ms found) ≡ is_some (live now_ms slot)
  left_is_live none none a = refl
  left_is_live none (some slot) a = rw a refl
  left_is_live (some metadata) none a = absurd a
  left_is_live (some metadata) (some slot) a =
      elim (Bool-cases (is_expired metadata.expires_at_ms now_ms)) [
        | inl expired ↦ rw (← a, expired) refl
        | inr kept ↦ rw (← a, kept) refl
      ]

  pub swept_store-Represents : Represents now_ms (swept_store now_ms s) log
  swept_store-Represents = record {
    file = h.file;
    storable = h.storable;
    small = h.small;
    index_map = sweep-IsMap now_ms s.index s.cache h.index_map;
    index_agrees = λ k.
        rw (find-sweep now_ms k s.index s.cache h.index_map)
          (swept-Agrees (find k s.index) (slot_at k log) (h.index_agrees k));
    cache_valid = sweep-IsValid now_ms s.index s.cache h.cache_valid;
    cache_agrees =
        λ k v p. h.cache_agrees k v (cached-sweep now_ms s.index s.cache k v h.cache_valid p);
  }

  cleanup_opened :
      s.opened ≡ true
      → cleanup_expired now_ms s ≡ (swept_store now_ms s, (sweep now_ms s.index s.cache).removed)
  unfolding cleanup_expired
  cleanup_opened opened = ground arith

  swept_entries :
      (k : Bytes) → is_some (find k (swept_store now_ms s).index) ≡ is_some (view now_ms log k)
  swept_entries k =
      rw (find-sweep now_ms k s.index s.cache h.index_map)
        (left_is_live (find k s.index) (slot_at k log) (h.index_agrees k))

  -- `cleanupExpired` on an open store that stands for a log leaves it standing for the same log,
  -- with an entry in the index for just the keys to which the log gives a value now.
  pub cleanup_expired_lem :
      s.opened ≡ true
      → Represents now_ms (cleanup_expired now_ms s).0 log
        × ((k : Bytes)
            → is_some (find k (cleanup_expired now_ms s).0.index) ≡ is_some (view now_ms log k))
  cleanup_expired_lem opened = rw (cleanup_opened opened) (swept_store-Represents, swept_entries)
