-- ===== src/UnorderedMap.antt =====
-- `std::unordered_map`, as an association list with each key once. The program sorts whatever it
-- collects by iterating over a map, so the order of the entries is never observed.
use mini_kvstore.Prelude.{
  suc, ◌≡◌, refl, inl, inr, true, false, Option, none, some, List, [], ◌∷◌, arith, length, Eq,
  if◌then◌else◌, Bool-cases,
}

module _ {ℓ} {K : Type ℓ} ⦃e : Eq K⦄ where
  pub beq_refl : (k : K) → e.beq k k ≡ true
  beq_refl k = (e.beq_iff k k).1 refl

  pub beq_sym : (j k : K) → e.beq j k ≡ false → e.beq k j ≡ false
  beq_sym j k h = ground (arith, e.beq_iff j k, e.beq_iff k j)

module _ {ℓ κ} {K : Type ℓ} {V : Type κ} ⦃e : Eq K⦄ where
  -- m.find(k)
  unfoldable pub find : K → List (K × V) → Option V
  find k [] = none
  find k ((j, v) ∷ m) = if e.beq j k then some v else find k m

  -- m[k] = v
  unfoldable pub assign : K → V → List (K × V) → List (K × V)
  assign k v [] = (k, v) ∷ []
  assign k v ((j, w) ∷ m) = if e.beq j k then (j, v) ∷ m else (j, w) ∷ assign k v m

  -- m.erase(k)
  unfoldable pub erase : K → List (K × V) → List (K × V)
  erase k [] = []
  erase k ((j, w) ∷ m) = if e.beq j k then m else (j, w) ∷ erase k m

  pub find-assign :
      (k q : K) (v : V) (m : List (K × V))
      → find q (assign k v m) ≡ (if e.beq k q then some v else find q m)
  unfolding find assign
  find-assign k q v [] = refl
  find-assign k q v ((j, w) ∷ m) =
      ground (arith, e.beq_iff k q, e.beq_iff j k, e.beq_iff j q, find-assign k q v m)

  -- No entry has the key.
  abbrev pub IsAbsent : K → List (K × V) → Type 0
  IsAbsent k [] = Unit
  IsAbsent k ((j, w) ∷ m) = (e.beq j k ≡ false) × IsAbsent k m

  -- Each key stands once.
  abbrev pub IsMap : List (K × V) → Type 0
  IsMap [] = Unit
  IsMap ((j, w) ∷ m) = IsAbsent j m × IsMap m

  pub find_absent : (k : K) (m : List (K × V)) → IsAbsent k m → find k m ≡ none
  unfolding find
  find_absent k [] h = refl
  find_absent k ((j, w) ∷ m) h = ground (arith, find_absent k m)

  pub IsAbsent-find : (k : K) (m : List (K × V)) → find k m ≡ none → IsAbsent k m
  unfolding find
  IsAbsent-find k [] h = tt
  IsAbsent-find k ((j, w) ∷ m) h = elim (Bool-cases (e.beq j k)) [
    | inl same ↦ absurd (ground arith)
    | inr other ↦ (other, IsAbsent-find k m (ground arith))
  ]

  pub find-erase :
      (k q : K) (m : List (K × V))
      → IsMap m
      → find q (erase k m) ≡ (if e.beq k q then none else find q m)
  unfolding find erase
  find-erase k q [] h = ground arith
  find-erase k q ((j, w) ∷ m) h =
      ground (arith, e.beq_iff k q, e.beq_iff j k, e.beq_iff j q, find_absent j m, find-erase k q m)

  IsAbsent-assign :
      (i k : K) (v : V) (m : List (K × V))
      → e.beq k i ≡ false
      → IsAbsent i m
      → IsAbsent i (assign k v m)
  unfolding assign
  IsAbsent-assign i k v [] h a = (h, tt)
  IsAbsent-assign i k v ((j, w) ∷ m) h a = elim (Bool-cases (e.beq j k)) [
    | inl same ↦ rw same a
    | inr other ↦ rw other (a.0, IsAbsent-assign i k v m h a.1)
  ]

  pub IsMap-assign : (k : K) (v : V) (m : List (K × V)) → IsMap m → IsMap (assign k v m)
  unfolding assign
  IsMap-assign k v [] h = (tt, tt)
  IsMap-assign k v ((j, w) ∷ m) h = elim (Bool-cases (e.beq j k)) [
    | inl same ↦ rw same h
    | inr other ↦ rw other (IsAbsent-assign j k v m (beq_sym j k other) h.0, IsMap-assign k v m h.1)
  ]

  IsAbsent-erase : (i k : K) (m : List (K × V)) → IsAbsent i m → IsAbsent i (erase k m)
  unfolding erase
  IsAbsent-erase i k [] a = tt
  IsAbsent-erase i k ((j, w) ∷ m) a = elim (Bool-cases (e.beq j k)) [
    | inl same ↦ rw same a.1
    | inr other ↦ rw other (a.0, IsAbsent-erase i k m a.1)
  ]

  pub IsMap-erase : (k : K) (m : List (K × V)) → IsMap m → IsMap (erase k m)
  unfolding erase
  IsMap-erase k [] h = tt
  IsMap-erase k ((j, w) ∷ m) h = elim (Bool-cases (e.beq j k)) [
    | inl same ↦ rw same h.1
    | inr other ↦ rw other (IsAbsent-erase j k m h.0, IsMap-erase k m h.1)
  ]

  -- The entry moved, or added, to the front.
  abbrev pub touch : K → V → List (K × V) → List (K × V)
  touch k v m = (k, v) ∷ erase k m

  pub erase_lem : (k : K) (m : List (K × V)) → IsMap m → IsAbsent k (erase k m)
  erase_lem k m h = IsAbsent-find k _ (rw (find-erase k k m h, beq_refl) refl)

  pub IsMap-touch : (k : K) (v : V) (m : List (K × V)) → IsMap m → IsMap (touch k v m)
  IsMap-touch k v m h = (erase_lem k m h, IsMap-erase k m h)

  pub find-touch :
      (k q : K) (v : V) (m : List (K × V))
      → IsMap m
      → find q (touch k v m) ≡ (if e.beq k q then some v else find q m)
  unfolding find
  find-touch k q v m h = elim (Bool-cases (e.beq k q)) [
    | inl same ↦ rw same
    | inr apart ↦ rw apart (rw (find-erase k q m h, apart) refl)
  ]

  pub length-erase :
      (k : K) (v : V) (m : List (K × V)) → find k m ≡ some v → suc (length (erase k m)) ≡ length m
  unfolding find erase
  length-erase k v [] h = cc
  length-erase k v ((j, w) ∷ m) h = ground (arith, length-erase k v m)

  pub erase_absent : (k : K) (m : List (K × V)) → IsAbsent k m → erase k m ≡ m
  unfolding erase
  erase_absent k [] h = refl
  erase_absent k ((j, w) ∷ m) h = rw (h.0, erase_absent k m h.1)

  pub erase-assign : (k : K) (v : V) (m : List (K × V)) → erase k (assign k v m) ≡ erase k m
  unfolding erase assign
  erase-assign k v [] = rw beq_refl
  erase-assign k v ((j, w) ∷ m) = elim (Bool-cases (e.beq j k)) [
    | inl same ↦ rw (same, same)
    | inr apart ↦ rw (apart, apart, erase-assign k v m)
  ]
