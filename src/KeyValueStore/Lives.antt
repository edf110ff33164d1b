-- ===== src/KeyValueStore/Lives.antt =====
-- The records that `compact` keeps: what they say, and the index and the cache over them.
use mini_kvstore.Prelude.{
  ℕ, ◌^◌, ◌≤◌, ◌<◌, ◌≡◌, refl, sym, ◌∙◌, ap, false, Option, none, some, Bool-cases, Option-cases,
  inl, inr, List, [], ◌∷◌, All, Bytes, bytes_key, bytes_eq, bytes_eq_iff, arith,
}
use mini_kvstore.UnorderedMap.{find, IsMap, find_absent}
use mini_kvstore.Record.{Record, RecordMetadata}
use mini_kvstore.LruCache
use mini_kvstore.LruCache.{Cache}
use mini_kvstore.LruCache.Valid.{clear-IsValid}
use mini_kvstore.LruCache.Cached.{cached-clear}
use mini_kvstore.AppendOnlyStore.Header.RoundTrip.{IsStorable}
use mini_kvstore.AppendOnlyStore.Recovery.{Index}
use mini_kvstore.AppendOnlyStore.Recovery.Log.{encode_all, log_size}
use mini_kvstore.AppendOnlyStore.Compaction.Replacing.{indexed}
use mini_kvstore.KeyValueStore.{Store}
use mini_kvstore.KeyValueStore.Slots.{Slot, slot_at}
use mini_kvstore.KeyValueStore.Represents.{Represents, view, live}
use mini_kvstore.KeyValueStore.Reads.{missing_view}
use mini_kvstore.KeyValueStore.Removed.{view_later}
use mini_kvstore.KeyValueStore.Sweeping.{is_some}
use mini_kvstore.KeyValueStore.Lookup.{
  lookup, AreEntries, entry_view, indexed-IsMap, indexed-Agrees,
}
use mini_kvstore.KeyValueStore.Sizes.{ComesFrom}
use mini_kvstore.KeyValueStore.Collecting.{AreSlots, Collected}

-- The entries of an index from what is found in it.
pub found-AreSlots :
    (log : List Record) (index : Index)
    → IsMap index
    → ((k : Bytes) (metadata : RecordMetadata)
        → find k index ≡ some metadata
        → (slot : Slot) × (slot_at k log ≡ some slot) × (metadata ≡ slot.metadata))
    → AreSlots log index
unfolding find
found-AreSlots log [] m found = tt
found-AreSlots log ((key, metadata) ∷ rest) m found = (
  found key metadata (rw ((bytes_eq_iff key key).1 refl) refl),
  found-AreSlots log rest m.1 (λ k metadata' p. elim (Bool-cases (bytes_eq key k)) [
    | inl same ↦
        let gone : find k rest ≡ none =
          rw ((bytes_eq_iff key k).0 same) at (find_absent key rest m.0) in
        absurd (ground (arith, p, gone))
    | inr other ↦ found k metadata' (rw other p)
  ]),
)

nothing_found : (found : Option RecordMetadata) → is_some found ≡ false → found ≡ none
nothing_found found h = ground (arith, h)

lookup_origin :
    (log : List Record) (k : Bytes) (rs : List Record) (r : Record)
    → All (ComesFrom log) rs
    → lookup k rs ≡ some r
    → ComesFrom log r × (r.key ≡ k)
lookup_origin log k [] r h there = absurd (ground (arith, there))
lookup_origin log k (e ∷ es) r h there = elim (Bool-cases (bytes_eq e.key k)) [
  | inl same ↦
      let here : e ≡ r = ground (arith, there) in rw (← here) (h.0, (bytes_eq_iff e.key k).0 same)
  | inr other ↦ lookup_origin log k es r h.1 (rw other at there)
]

entry_of_slot :
    (later : ℕ) (r : Record) (slot : Slot)
    → r.expires_at_ms ≡ slot.metadata.expires_at_ms
    → r.value ≡ slot.value
    → entry_view later (some r) none ≡ live later (some slot)
entry_of_slot later r slot expires value = rw (expires, value) refl

-- What the collected records say is what the log says.
pub Collected-view :
    (now_ms later : ℕ) (s : Store) (log : List Record) (rs : List Record) (k : Bytes)
    → Represents now_ms s log
    → Collected log s.index rs
    → now_ms ≤ later
    → later < 2 ^ 63
    → entry_view later (lookup k rs) none ≡ view later log k
Collected-view now_ms later s log rs k h c after word = elim (Option-cases (lookup k rs)) [
  | inl absent ↦
      let missing : find k s.index ≡ none =
        nothing_found (find k s.index) (sym (c.keys k) ∙ (rw absent refl)) in
      rw absent
        (sym (view_later now_ms later log k after word (missing_view now_ms s log h k missing)))
  | inr (r, there) ↦
      let ((slot, at, same), key) = lookup_origin log k rs r c.origins there in
      rw (there, ← key, at)
        (entry_of_slot later r slot (ap (λ (e : Record). e.expires_at_ms) same)
          (ap (λ (e : Record). e.value) same))
]

-- A store with the index of a compaction and an empty cache.
pub compacted-Represents :
    (now_ms : ℕ) (s : Store) (lives : List Record) (cache : Cache Bytes Bytes)
    → s.storage.data_file ≡ some (encode_all lives)
    → s.index ≡ indexed 0 lives []
    → s.cache ≡ LruCache.clear cache
    → All IsStorable lives
    → AreEntries lives
    → log_size lives < 2 ^ 64
    → Represents now_ms s lives
unfolding find
compacted-Represents now_ms s lives cache file index empty storable entries small = record {
  file = file;
  storable = storable;
  small = small;
  index_map = rw index (indexed-IsMap 0 lives [] tt);
  index_agrees = λ k. rw index (indexed-Agrees now_ms 0 k lives [] none entries tt);
  cache_valid = rw empty (clear-IsValid cache);
  cache_agrees = λ k v p. absurd (ground (arith, cached-clear cache k, empty, p));
}
