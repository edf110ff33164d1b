-- ===== src/LruCache/Valid.antt =====
-- Every method keeps the invariant of the cache, and works on its entries, most recent first, as the
-- list operations `touch`, `take` and `erase` do.
use mini_kvstore.Prelude.{
  ℕ, suc, ◌≤◌, ◌≡◌, refl, sym, ap, ◌==◌, none, some, List, [], ◌∷◌, length, take, Eq, nat_key,
  arith, take_of_length-le, Bool-cases, Option-cases, inl, inr,
}
use mini_kvstore.UnorderedMap.{
  find, assign, erase, IsAbsent, find_absent, touch, length-erase, erase_absent,
}
use mini_kvstore.LruCache.{Cache, EntryList, init, get, put, evict_from, remove, clear}
use mini_kvstore.LruCache.Links.{
  IsValid, touch-IsLinked, unlink-IsLinked, push-IsLinked, splice_front_lem, splice_front-assign,
  evict_from_lem,
}
use mini_kvstore.LruCache.Nodes.{
  contents, length-contents, find-contents, contents-erase, IsAbsent-contents,
}

contents_nil {ℓ} : {K V : Type ℓ} (es : EntryList K V) → length es ≤ 0 → contents es ≡ []
contents_nil [] h = refl
contents_nil (x ∷ es) h = absurd (omega arith)

module _ {ℓ} {K V : Type ℓ} ⦃e : Eq K⦄ where
  -- What the cache holds, most recent first.
  abbrev pub recency : Cache K V → List (K × V)
  recency c = contents c.entries

  missing : (c : Cache K V) (k : K) → IsValid c → find k c.index ≡ none → IsAbsent k (recency c)
  missing c k h miss =
      IsAbsent-contents c.entries k h.linked.nodes
        (λ n v p. ground (arith, h.linked.complete n k v p))

  -- `get` on a valid cache returns the value that the list of entries, from the latest used, has for
  -- the key; it moves that entry to the front, leaves the list as it was if there is none, and keeps
  -- the cache valid and its capacity.
  pub get_lem :
      (c : Cache K V) (k : K)
      → IsValid c
      → IsValid (get c k).0
        × ((get c k).1 ≡ find k (recency c))
        × (recency (get c k).0
            ≡ (elim (find k (recency c)) [ none ↦ recency c | some v ↦ touch k v (recency c) ]))
        × ((get c k).0.capacity ≡ c.capacity)
  unfolding get
  get_lem c k h = elim (Option-cases (find k c.index)) [
    | inl miss ↦
        let absent : find k (recency c) ≡ none = find_absent k (recency c) (missing c k h miss) in
        rw (miss, get, absent) (record { linked = h.linked; bounded = h.bounded }, refl, refl, refl)
    | inr (n, hit) ↦
        let (v, at) = h.linked.sound k n hit in
        let there = find-contents c.entries n k v h.linked.keys at in
        let front = splice_front_lem c.entries n (k, v) at in
        rw (hit, get, at, front, there)
          (
            record {
              linked = touch-IsLinked c.entries c.index c.next_node n k v v h.linked at;
              bounded = omega (arith, h.bounded, length-erase n (k, v) c.entries at);
            },
            refl,
            ap (◌∷◌ (k, v)) (contents-erase c.entries n k v h.linked.keys at),
            refl,
          )
  ]

  empty_lem :
      (c : Cache K V) (v : V) (k : K)
      → IsValid c
      → c.capacity ≡ 0
      → recency c ≡ take c.capacity (touch k v (recency c))
  unfolding take
  empty_lem c v k h cap = rw cap (contents_nil c.entries (omega (arith, h.bounded)))

  -- The cache with a new node at the front, before `put` evicts.
  abbrev pushed : Cache K V → K → V → Cache K V
  pushed c k v = record c {
    entries = (c.next_node, (k, v)) ∷ c.entries;
    index = assign k c.next_node c.index;
    next_node = suc c.next_node;
  }

  capacity-evict_from :
      (c : Cache K V) (es : EntryList K V) → (evict_from c es).capacity ≡ c.capacity
  unfolding evict_from
  capacity-evict_from c [] = refl
  capacity-evict_from c (x ∷ es) = ground arith

  -- A touched list is no longer than before, so that all of it fits.
  updated_lem :
      (c : Cache K V) (k : K) (v w : V)
      → IsValid c
      → (n : ℕ) → find n c.entries ≡ some (k, w)
      → contents (touch n (k, v) c.entries) ≡ take c.capacity (touch k v (recency c))
  updated_lem c k v w h n at =
      let same = contents-erase c.entries n k w h.linked.keys at in
      rw (← same) (
        sym (
          take_of_length-le c.capacity (contents (touch n (k, v) c.entries)) (
            omega (
              arith,
              h.bounded,
              length-contents (touch n (k, v) c.entries),
              length-erase n (k, w) c.entries at,
            ))))

  -- `put` on a valid cache leaves a valid one of the same capacity, whose list of entries, from the
  -- latest used, is the new entry and then the old list without the key, cut to the capacity: what is
  -- evicted is what was used least recently.
  pub put_lem :
      (c : Cache K V) (k : K) (v : V)
      → IsValid c
      → IsValid (put c k v)
        × (recency (put c k v) ≡ take c.capacity (touch k v (recency c)))
        × ((put c k v).capacity ≡ c.capacity)
  unfolding put
  put_lem c k v h = elim (Bool-cases (c.capacity == 0)) [
    | inl empty ↦
        let cap : c.capacity ≡ 0 = ground arith in rw empty (h, empty_lem c v k h cap, refl)
    | inr room ↦ elim (Option-cases (find k c.index)) [
      | inl miss ↦
          rw (room, miss)
            (let (valid, cut) =
                evict_from_lem (pushed c k v) (pushed c k v).entries refl
                  (push-IsLinked c.entries c.index c.next_node k v h.linked miss)
                  (omega (arith, h.bounded)) in
              (
                valid,
                rw (erase_absent k (recency c) (missing c k h miss)) cut,
                capacity-evict_from (pushed c k v) _,
              ))
      | inr (n, hit) ↦
          let (w, at) = h.linked.sound k n hit in
          let front = splice_front-assign c.entries n (k, v) in
          rw (room, hit, front)
            (
              record {
                linked = touch-IsLinked c.entries c.index c.next_node n k w v h.linked at;
                bounded = omega (arith, h.bounded, length-erase n (k, w) c.entries at);
              },
              updated_lem c k v w h n at,
              refl,
            )
    ]
  ]

  -- `erase` on a valid cache leaves a valid one of the same capacity, whose list of entries is the old one
  -- without the key.
  pub remove_lem :
      (c : Cache K V) (k : K)
      → IsValid c
      → IsValid (remove c k)
        × (recency (remove c k) ≡ erase k (recency c))
        × ((remove c k).capacity ≡ c.capacity)
  unfolding remove
  remove_lem c k h = elim (Option-cases (find k c.index)) [
    | inl miss ↦ rw (miss, remove) (h, sym (erase_absent k (recency c) (missing c k h miss)), refl)
    | inr (n, hit) ↦
        let (v, at) = h.linked.sound k n hit in
        rw (hit, remove)
          (
            record {
              linked = unlink-IsLinked c.entries c.index c.next_node n k v h.linked at;
              bounded = omega (arith, h.bounded, length-erase n (k, v) c.entries at);
            },
            contents-erase c.entries n k v h.linked.keys at,
            refl,
          )
  ]

  -- A new cache is valid, and so is a cleared one; both are empty.
  pub init-IsValid : (capacity : ℕ) → IsValid (init {K = K} {V = V} capacity)
  unfolding init find
  init-IsValid capacity = record {
    linked = record {
      nodes = tt;
      keys = tt;
      index_map = tt;
      fresh = λ n le. refl;
      sound = λ k n p. absurd (cc);
      complete = λ n k v p. absurd (cc);
    };
    bounded = omega arith;
  }

  pub clear-IsValid : (c : Cache K V) → IsValid (clear c)
  unfolding clear find
  clear-IsValid c = record {
    linked = record {
      nodes = tt;
      keys = tt;
      index_map = tt;
      fresh = λ n le. refl;
      sound = λ k n p. absurd (cc);
      complete = λ n k v p. absurd (cc);
    };
    bounded = omega arith;
  }
