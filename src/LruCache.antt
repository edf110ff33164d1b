-- ===== src/LruCache.antt =====
-- include/minikv/LruCache.h. `entries_` is a list of nodes, most recent first: each has an identity,
-- for which an iterator stands, with its key and its value. `index_` maps a key to its iterator. A
-- node gets the identity `next_node` when it is made, so that no two nodes ever share one. The mutex
-- makes each method one step. An iterator to no node would be undefined behaviour in the source;
-- the invariant of `Links`, which `Valid` shows every method to keep, rules it out.
pub mod Nodes
pub mod Links
pub mod Valid
pub mod Cached
use mini_kvstore.Prelude.{
  ℕ, suc, ◌+◌, ◌==◌, ltb, if◌then◌else◌, Option, none, some, List, [], ◌∷◌, length, Eq, nat_key,
}
use mini_kvstore.UnorderedMap.{find, assign, erase}
use mini_kvstore.Record.{u64}

pub record CacheStatistics : Type 0 where
  pub capacity : ℕ
  pub size : ℕ
  pub hits : ℕ
  pub misses : ℕ
  pub evictions : ℕ

abbrev pub EntryList {ℓ} : Type ℓ → Type ℓ → Type ℓ
EntryList K V = List (ℕ × (K × V))

pub record Cache {ℓ} (K V : Type ℓ) : Type ℓ where
  pub capacity : ℕ
  pub entries : EntryList K V
  pub index : List (K × ℕ)
  pub next_node : ℕ
  pub hits : ℕ
  pub misses : ℕ
  pub evictions : ℕ

-- entries_.pop_back()
unfoldable pub pop_back {ℓ} : {A : Type ℓ} → List A → List A
pop_back [] = []
pop_back (x ∷ []) = []
pop_back (x ∷ y ∷ rest) = x ∷ pop_back (y ∷ rest)

-- entries_.back()
unfoldable pub back {ℓ} : {A : Type ℓ} → A → List A → A
back x [] = x
back x (y ∷ rest) = back y rest

module _ {ℓ} {K V : Type ℓ} where
  unfoldable pub init : ℕ → Cache K V
  init capacity = record {
    capacity = capacity;
    entries = [];
    index = [];
    next_node = 0;
    hits = 0;
    misses = 0;
    evictions = 0;
  }

  -- entries_.splice(entries_.begin(), entries_, node)
  unfoldable pub splice_front : ℕ → EntryList K V → EntryList K V
  splice_front node entries = elim (find node entries) [
    | none ↦ entries
    | some entry ↦ (node, entry) ∷ erase node entries
  ]

module _ {ℓ} {K V : Type ℓ} ⦃e : Eq K⦄ where
  unfoldable pub get : Cache K V → K → Cache K V × Option V
  get c key = elim (find key c.index) [
    | none ↦ (record c { misses = u64 (c.misses + 1) }, none)
    | some node ↦ (
      record c { entries = splice_front node c.entries; hits = u64 (c.hits + 1) },
      elim (find node c.entries) [ none ↦ none | some entry ↦ some entry.1 ],
    )
  ]

  -- The end of `put` of a new key, whose node is at the front of `entries`, those of the cache.
  unfoldable pub evict_from : Cache K V → EntryList K V → Cache K V
  evict_from c [] = c
  evict_from c (first ∷ rest) =
      if ltb c.capacity (suc (length rest))
      then record c {
        index = erase (back first rest).1.0 c.index;
        entries = pop_back (first ∷ rest);
        evictions = u64 (c.evictions + 1);
      }
      else c

  abbrev pub evict : Cache K V → Cache K V
  evict c = evict_from c c.entries

  unfoldable pub put : Cache K V → K → V → Cache K V
  put c key value = if c.capacity == 0 then c else elim (find key c.index) [
    | some node ↦ record c { entries = splice_front node (assign node (key, value) c.entries) }
    | none ↦ evict (record c {
      entries = (c.next_node, (key, value)) ∷ c.entries;
      index = assign key c.next_node c.index;
      next_node = suc c.next_node;
    })
  ]

  unfoldable pub remove : Cache K V → K → Cache K V
  remove c key = elim (find key c.index) [
    | none ↦ c
    | some node ↦ record c { entries = erase node c.entries; index = erase key c.index }
  ]

module _ {ℓ} {K V : Type ℓ} where
  unfoldable pub clear : Cache K V → Cache K V
  clear c = record c { entries = []; index = [] }

  unfoldable pub statistics : Cache K V → CacheStatistics
  statistics c = record {
    capacity = c.capacity;
    size = length c.entries;
    hits = c.hits;
    misses = c.misses;
    evictions = c.evictions;
  }
