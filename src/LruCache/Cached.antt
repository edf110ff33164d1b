-- ===== src/LruCache/Cached.antt =====
-- What is cached for a key, before and after each method: all that the store needs of the cache.
use mini_kvstore.Prelude.{
  ℕ, zero, suc, ◌<◌, ◌-◌, ◌≡◌, refl, ◌⊎◌, inl, inr, true, false, Option, none, some, List, [], ◌∷◌,
  take, Eq, Option-cases, arith, if◌then◌else◌,
}
use mini_kvstore.UnorderedMap.{find, touch, find-touch, find-erase, beq_refl}
use mini_kvstore.LruCache.{Cache, get, put, remove, clear}
use mini_kvstore.LruCache.Links.{IsValid}
use mini_kvstore.LruCache.Valid.{recency, get_lem, put_lem, remove_lem}

module _ {ℓ} {K V : Type ℓ} ⦃e : Eq K⦄ where
  abbrev pub cached : Cache K V → K → Option V
  cached c k = find k (recency c)

  find_of_take :
      (q : K) (w : V) (n : ℕ) (m : List (K × V)) → find q (take n m) ≡ some w → find q m ≡ some w
  unfolding find take
  find_of_take q w zero m h = cc
  find_of_take q w (suc n) [] h = cc
  find_of_take q w (suc n) ((j, v) ∷ m) h = ground (arith, find_of_take q w n m)

  -- After `put`, what is cached for a key is the new value, for the new key, or what was cached.
  pub cached-put :
      (c : Cache K V) (k q : K) (v w : V)
      → IsValid c
      → cached (put c k v) q ≡ some w
      → ((e.beq k q ≡ true) × (w ≡ v)) ⊎ ((e.beq k q ≡ false) × (cached c q ≡ some w))
  cached-put c k q v w h p =
      let (valid, list, cap) = put_lem c k v h in
      let there : find q (take c.capacity (touch k v (recency c))) ≡ some w = rw list at p in
      let touched =
        rw (find-touch k q v (recency c) h.linked.keys) at (find_of_take q w c.capacity _ there) in
      ground arith

  -- `get` changes the order of the entries and not what is cached.
  pub cached-get : (c : Cache K V) (k q : K) → IsValid c → cached (get c k).0 q ≡ cached c q
  cached-get c k q h =
      let (valid, value, list, cap) = get_lem c k h in
      elim (Option-cases (find k (recency c))) [
        | inl miss ↦ rw (list, miss)
        | inr (v, hit) ↦
            rw (list, hit, find-touch k q v (recency c) h.linked.keys)
              (ground (arith, e.beq_iff k q))
      ]

  pub cached-remove :
      (c : Cache K V) (k q : K)
      → IsValid c
      → cached (remove c k) q ≡ (if e.beq k q then none else cached c q)
  cached-remove c k q h =
      let (valid, list, cap) = remove_lem c k h in
      rw (list, find-erase k q (recency c) h.linked.keys)

  pub cached_of_remove :
      (c : Cache K V) (k q : K) (v : V)
      → IsValid c
      → cached (remove c k) q ≡ some v
      → (e.beq k q ≡ false) × (cached c q ≡ some v)
  cached_of_remove c k q v h p = let kept = rw (cached-remove c k q h) at p in ground arith

  pub cached-clear : (c : Cache K V) (q : K) → cached (clear c) q ≡ none
  unfolding clear find
  cached-clear c q = refl

  -- Behind a `put` into a valid cache whose capacity is not zero, `get` of the key returns the value.
  pub get-put_self :
      (c : Cache K V) (k : K) (v : V) → IsValid c → 0 < c.capacity → (get (put c k v) k).1 ≡ some v
  get-put_self c k v h room =
      let (valid, list, cap) = put_lem c k v h in
      let (_, value, _, _) = get_lem (put c k v) k valid in
      let e' : c.capacity ≡ suc (c.capacity - 1) = omega arith in
      rw (value, list, e') (unfold take find in rw (beq_refl k))
