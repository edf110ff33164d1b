-- ===== src/LruCache/Nodes.antt =====
-- The list of nodes against the list of its keys and values.
use mini_kvstore.Prelude.{
  ℕ, suc, ◌≡◌, refl, ap, ◌≢◌, ◌==◌, true, false, some, List, [], ◌∷◌, length, take, Eq, nat_key,
  arith, Bool-cases, inl, inr,
}
use mini_kvstore.UnorderedMap.{find, erase, IsMap, IsAbsent, find_absent}
use mini_kvstore.LruCache.{EntryList, pop_back, back}

module _ {ℓ} {K V : Type ℓ} where
  -- The keys and values of the nodes, most recent first.
  abbrev pub contents : EntryList K V → List (K × V)
  contents [] = []
  contents ((node, entry) ∷ rest) = entry ∷ contents rest

  pub length-contents : (es : EntryList K V) → length (contents es) ≡ length es
  length-contents [] = refl
  length-contents (x ∷ es) = ap suc (length-contents es)

module _ {ℓ} {K V : Type ℓ} ⦃e : Eq K⦄ where
  -- A node that is found makes its key present.
  present :
      (es : EntryList K V) (n : ℕ) (k : K) (v : V)
      → find n es ≡ some (k, v)
      → ¬ IsAbsent k (contents es)
  unfolding find
  present [] n k v h a = cc
  present ((m, (j, w)) ∷ es) n k v h a = elim (Bool-cases (m == n)) [
    | inl same ↦ ground (arith, e.beq_iff j k)
    | inr other ↦ present es n k v (ground arith) a.1
  ]

  pub find-contents :
      (es : EntryList K V) (n : ℕ) (k : K) (v : V)
      → IsMap (contents es)
      → find n es ≡ some (k, v)
      → find k (contents es) ≡ some v
  unfolding find
  find-contents [] n k v u h = cc
  find-contents ((m, (j, w)) ∷ es) n k v u h = elim (Bool-cases (m == n)) [
    | inl same ↦ ground (arith, e.beq_iff j k)
    | inr other ↦ elim (Bool-cases (e.beq j k)) [
      | inl same ↦ absurd (present es n k v (ground arith) (ground (arith, e.beq_iff j k)))
      | inr apart ↦ rw apart (find-contents es n k v u.1 (ground arith))
    ]
  ]

  pub contents-erase :
      (es : EntryList K V) (n : ℕ) (k : K) (v : V)
      → IsMap (contents es)
      → find n es ≡ some (k, v)
      → contents (erase n es) ≡ erase k (contents es)
  unfolding find erase
  contents-erase [] n k v u h = cc
  contents-erase ((m, (j, w)) ∷ es) n k v u h = elim (Bool-cases (m == n)) [
    | inl same ↦ let hit : e.beq j k ≡ true = ground (arith, e.beq_iff j k) in rw (same, hit)
    | inr other ↦ elim (Bool-cases (e.beq j k)) [
      | inl same ↦ absurd (present es n k v (ground arith) (ground (arith, e.beq_iff j k)))
      | inr apart ↦ rw (apart, other, contents-erase es n k v u.1 (ground arith))
    ]
  ]

  -- A key for which there is no node is not in the contents.
  pub IsAbsent-contents :
      (es : EntryList K V) (k : K)
      → IsMap es
      → ((n : ℕ) (v : V) → find n es ≢ some (k, v))
      → IsAbsent k (contents es)
  unfolding find
  IsAbsent-contents [] k u h = tt
  IsAbsent-contents ((m, (j, w)) ∷ es) k u h = elim (Bool-cases (e.beq j k)) [
    | inl same ↦ absurd (h m w ground (arith, e.beq_iff j k))
    | inr apart ↦ (
      apart,
      IsAbsent-contents es k u.1 (λ n v p. elim (Bool-cases (m == n)) [
        | inl same ↦ ground (arith, find_absent m es u.0)
        | inr other ↦ h n v (rw other p)
      ]),
    )
  ]

  found_ne :
      (a m : ℕ) (es : EntryList K V) {entry : K × V}
      → find a es ≡ some entry
      → IsAbsent m es
      → (m == a) ≡ false
  found_ne a m es h absent = elim (Bool-cases (m == a)) [
    | inl same ↦ absurd (ground (arith, find_absent m es absent))
    | inr apart ↦ apart
  ]

  -- The last node.
  pub find-back :
      (x : ℕ × (K × V)) (es : EntryList K V)
      → IsMap (x ∷ es)
      → find (back x es).0 (x ∷ es) ≡ some (back x es).1
  unfolding find back
  find-back (m, x) [] u = ground arith
  find-back (m, x) ((n, y) ∷ es) u =
      let last : find (back (n, y) es).0 ((n, y) ∷ es) ≡ some (back (n, y) es).1 =
        find-back (n, y) es u.1 in
      rw (found_ne (back (n, y) es).0 m ((n, y) ∷ es) last u.0) last

  pub pop_back-erase :
      (x : ℕ × (K × V)) (es : EntryList K V)
      → IsMap (x ∷ es)
      → pop_back (x ∷ es) ≡ erase (back x es).0 (x ∷ es)
  unfolding erase back pop_back
  pop_back-erase (m, x) [] u = ground arith
  pop_back-erase (m, x) ((n, y) ∷ es) u = rw (
    found_ne (back (n, y) es).0 m ((n, y) ∷ es) (find-back (n, y) es u.1) u.0,
    pop_back-erase (n, y) es u.1,
  )

  -- Without the last node, the contents are one entry shorter.
  pub contents-pop_back :
      (x : ℕ × (K × V)) (es : EntryList K V)
      → contents (pop_back (x ∷ es)) ≡ take (length es) (contents (x ∷ es))
  unfolding pop_back take
  contents-pop_back x [] = refl
  contents-pop_back x (y ∷ es) = ap (◌∷◌ x.1) (contents-pop_back y es)
