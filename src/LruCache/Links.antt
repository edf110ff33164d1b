-- ===== src/LruCache/Links.antt =====
-- The list of nodes and the map of iterators together: what ties them, and the changes that the
-- methods of the cache make to both.
use mini_kvstore.Prelude.{
  ℕ, suc, ◌≤◌, ◌≡◌, refl, ap, ◌∙◌, ◌==◌, none, some, List, [], ◌∷◌, length, take, Eq, nat_key,
  arith, ltb, take_of_length-le, Bool-cases, inl, inr,
}
use mini_kvstore.UnorderedMap.{
  find, assign, erase, IsMap, IsAbsent-find, find-erase, find-assign, find-touch, touch,
  IsMap-touch, IsMap-erase, IsMap-assign, length-erase, erase-assign, beq_refl,
}
use mini_kvstore.LruCache.{Cache, EntryList, splice_front, back, evict_from}
use mini_kvstore.LruCache.Nodes.{
  contents, length-contents, contents-erase, IsAbsent-contents, find-back, pop_back-erase,
  contents-pop_back,
}

-- The list of nodes and the map of iterators fit: each key of the map has a node with that key, and
-- each node is the one that the map has for its key.
pub record IsLinked {ℓ} {K V : Type ℓ} ⦃e : Eq K⦄ (entries : EntryList K V) (index : List (K × ℕ))
    (next_node : ℕ) : Type ℓ where
  pub nodes : IsMap entries
  pub keys : IsMap (contents entries)
  pub index_map : IsMap index
  pub fresh : (n : ℕ) → next_node ≤ n → find n entries ≡ none
  pub sound : (k : K) (n : ℕ) → find k index ≡ some n → (v : V) × (find n entries ≡ some (k, v))
  pub complete : (n : ℕ) (k : K) (v : V) → find n entries ≡ some (k, v) → find k index ≡ some n

pub record IsValid {ℓ} {K V : Type ℓ} ⦃e : Eq K⦄ (c : Cache K V) : Type ℓ where
  pub linked : IsLinked c.entries c.index c.next_node
  pub bounded : length c.entries ≤ c.capacity

module _ {ℓ} {K V : Type ℓ} ⦃e : Eq K⦄ where
  -- To give a linked node a value and move it to the front keeps the links.
  pub touch-IsLinked :
      (es : EntryList K V) (index : List (K × ℕ)) (next n : ℕ) (k : K) (v w : V)
      → IsLinked es index next
      → find n es ≡ some (k, v)
      → IsLinked (touch n (k, w) es) index next
  touch-IsLinked es index next n k v w h at = record {
    nodes = IsMap-touch n (k, w) es h.nodes;
    keys = rw (contents-erase es n k v h.keys at) (IsMap-touch k w (contents es) h.keys);
    index_map = h.index_map;
    fresh = λ m le. rw (find-touch n m (k, w) es h.nodes) (ground (arith, h.fresh m le));
    sound = λ q m p. rw (find-touch n m (k, w) es h.nodes) (
        let (x, found) = h.sound q m p in
        elim (Bool-cases (n == m)) [
          | inl same ↦ (w, ground arith)
          | inr apart ↦ (x, ground arith)
        ]);
    complete = λ m q x p.
        let found = rw (find-touch n m (k, w) es h.nodes) at p in
        elim (Bool-cases (n == m)) [
          | inl same ↦ ground (arith, h.complete n k v at)
          | inr apart ↦ h.complete m q x (ground arith)
        ];
  }

  -- To drop a node and its key keeps the links.
  pub unlink-IsLinked :
      (es : EntryList K V) (index : List (K × ℕ)) (next n : ℕ) (k : K) (v : V)
      → IsLinked es index next
      → find n es ≡ some (k, v)
      → IsLinked (erase n es) (erase k index) next
  unlink-IsLinked es index next n k v h at = record {
    nodes = IsMap-erase n es h.nodes;
    keys = rw (contents-erase es n k v h.keys at) (IsMap-erase k (contents es) h.keys);
    index_map = IsMap-erase k index h.index_map;
    fresh = λ m le. rw (find-erase n m es h.nodes) (ground (arith, h.fresh m le));
    sound = λ q m p. rw (find-erase n m es h.nodes) (
        let kept = rw (find-erase k q index h.index_map) at p in
        elim (Bool-cases (e.beq k q)) [
          | inl same ↦ absurd (ground arith)
          | inr apart ↦
              let (x, found) = h.sound q m (ground arith) in (x, ground (arith, e.beq_iff k q))
        ]);
    complete = λ m q x p. rw (find-erase k q index h.index_map) (
        let found = rw (find-erase n m es h.nodes) at p in
        elim (Bool-cases (n == m)) [
          | inl same ↦ absurd (ground arith)
          | inr apart ↦ ground (arith, h.complete m q x, e.beq_iff k q, h.complete n k v)
        ]);
  }

  -- A new node for a key that is not there.
  pub push-IsLinked :
      (es : EntryList K V) (index : List (K × ℕ)) (next : ℕ) (k : K) (v : V)
      → IsLinked es index next
      → find k index ≡ none
      → IsLinked ((next, (k, v)) ∷ es) (assign k next index) (suc next)
  push-IsLinked es index next k v h new = record {
    nodes = (IsAbsent-find next es (h.fresh next (omega arith)), h.nodes);
    keys = (IsAbsent-contents es k h.nodes (λ n w p. ground (arith, h.complete n k w p)), h.keys);
    index_map = IsMap-assign k next index h.index_map;
    fresh = λ m le. unfold find in ground (arith, h.fresh m);
    sound = λ q m p.
        unfold find in
        (let found = rw (find-assign k q next index) at p in
          elim (Bool-cases (e.beq k q)) [
            | inl same ↦ (v, ground (arith, e.beq_iff k q))
            | inr apart ↦
                let (x, at) = h.sound q m (ground arith) in (x, ground (arith, h.fresh next, at))
          ]);
    complete = λ m q x p.
        rw (find-assign k q next index)
          (unfold find in ground (arith, h.complete m q x, h.fresh next, e.beq_iff k q));
  }

  pub splice_front_lem :
      (es : EntryList K V) (n : ℕ) (entry : K × V)
      → find n es ≡ some entry
      → splice_front n es ≡ touch n entry es
  unfolding splice_front
  splice_front_lem es n entry at = rw (at, splice_front)

  -- The node of an updated entry, moved to the front.
  pub splice_front-assign :
      (es : EntryList K V) (n : ℕ) (entry : K × V)
      → splice_front n (assign n entry es) ≡ touch n entry es
  splice_front-assign es n entry =
      splice_front_lem (assign n entry es) n entry (rw (find-assign n n entry es, beq_refl n) refl)
      ∙ ap (◌∷◌ (n, entry)) (erase-assign n entry es)

  kept_lem :
      (c : Cache K V) (es : EntryList K V)
      → c.entries ≡ es
      → IsLinked es c.index c.next_node
      → length es ≤ c.capacity
      → IsValid c × (contents c.entries ≡ take c.capacity (contents es))
  kept_lem c es same h fits =
      rw (take_of_length-le c.capacity (contents es) (omega (arith, length-contents es)))
        (record { linked = rw same h; bounded = rw same fits }, ap contents same)

  -- The list and the map after the eviction at the end of `put`: the least recent entry is gone if
  -- there was one too many.
  pub evict_from_lem :
      (c : Cache K V) (es : EntryList K V)
      → c.entries ≡ es
      → IsLinked es c.index c.next_node
      → length es ≤ suc c.capacity
      → IsValid (evict_from c es)
        × (contents (evict_from c es).entries ≡ take c.capacity (contents es))
  unfolding evict_from
  evict_from_lem c [] same h full = kept_lem c [] same h (omega arith)
  evict_from_lem c (x ∷ es) same h full = elim (Bool-cases (ltb c.capacity (suc (length es)))) [
    | inl over ↦
        let cap : c.capacity ≡ length es = ground arith in
        let last = find-back x es h.nodes in
        let popped = pop_back-erase x es h.nodes in
        rw over (
          record {
            linked =
                rw popped (unlink-IsLinked (x ∷ es) c.index c.next_node _ _ (back x es).1.1 h last);
            bounded =
                rw popped (omega (arith, length-erase (back x es).0 (back x es).1 (x ∷ es) last));
          },
          rw cap (contents-pop_back x es),
        )
    | inr fits ↦ rw fits (kept_lem c (x ∷ es) same h (ground arith))
  ]
