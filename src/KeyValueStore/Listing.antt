-- ===== src/KeyValueStore/Listing.antt =====
-- The list of keys that `keys` returns, as a function of the log.
use mini_kvstore.Prelude.{
  ℕ, ◌≡◌, refl, sym, ◌∙◌, ap, Bool, true, false, not, ◌+◌, ◌&&◌, ◌||◌, Bool-cases, none, inl, inr,
  List, [], ◌∷◌, Bytes, bytes_key, bytes_eq, bytes_eq_iff, bytes_eq_refl, bytes_lt, sort,
  if◌then◌else◌, arith,
}
use mini_kvstore.Result.{succeed}
use mini_kvstore.Record.{Record}
use mini_kvstore.AppendOnlyStore.{record_size}
use mini_kvstore.KeyValueStore.{Store}
use mini_kvstore.KeyValueStore.Slots.{slot_from}
use mini_kvstore.KeyValueStore.Represents.{Represents, view}
use mini_kvstore.KeyValueStore.Sweep.{keys, has_prefix}
use mini_kvstore.KeyValueStore.Sweeping.{is_some}
use mini_kvstore.KeyValueStore.Sorting.{
  contains, Below, IsAscending, IsDistinct, contains-sort, sort-IsAscending,
}
use mini_kvstore.KeyValueStore.Keys.{keys_lem}

bytes_lt_trans :
    (xs ys zs : Bytes) → bytes_lt xs ys ≡ true → bytes_lt ys zs ≡ true → bytes_lt xs zs ≡ true
unfolding bytes_lt
bytes_lt_trans xs ys [] p q = ground (arith, q)
bytes_lt_trans xs [] (z ∷ zs) p q = ground (arith, p)
bytes_lt_trans [] (y ∷ ys) (z ∷ zs) p q = refl
bytes_lt_trans (x ∷ xs) (y ∷ ys) (z ∷ zs) p q = ground (arith, p, q, bytes_lt_trans xs ys zs)

bytes_lt_irrefl : (xs : Bytes) → bytes_lt xs xs ≡ false
unfolding bytes_lt
bytes_lt_irrefl [] = refl
bytes_lt_irrefl (x ∷ xs) = ground (arith, bytes_lt_irrefl xs)

-- The first element of an ascending list is less than the others.
first_less :
    (x k : Bytes) (xs : List Bytes)
    → Below x xs
    → IsAscending xs
    → contains k xs ≡ true
    → bytes_lt x k ≡ true
first_less x k [] below h there = absurd (ground (arith, there))
first_less x k (y ∷ ys) below h there = elim (Bool-cases (bytes_eq y k)) [
  | inl same ↦ rw (← (bytes_eq_iff y k).0 same) below
  | inr other ↦ bytes_lt_trans x y k below (first_less y k ys h.0 h.1 (rw other at there))
]

not_first : (x : Bytes) (xs : List Bytes) → Below x xs → IsAscending xs → contains x xs ≡ false
not_first x xs below h = elim (Bool-cases (contains x xs)) [
  | inl there ↦ absurd (ground (arith, first_less x x xs below h there, bytes_lt_irrefl x))
  | inr absent ↦ absent
]

same_first :
    (x y : Bytes) (xs ys : List Bytes)
    → IsAscending (x ∷ xs)
    → IsAscending (y ∷ ys)
    → ((k : Bytes) → contains k (x ∷ xs) ≡ contains k (y ∷ ys))
    → x ≡ y
same_first x y xs ys hx hy same = elim (Bool-cases (bytes_eq y x)) [
  | inl equal ↦ sym ((bytes_eq_iff y x).0 equal)
  | inr apart ↦
      let apart' : bytes_eq x y ≡ false = ground (arith, bytes_eq_iff x y, bytes_eq_iff y x) in
      let below : bytes_lt y x ≡ true =
        first_less y x ys hy.0 hy.1 (ground (arith, same x, bytes_eq_refl x)) in
      let above : bytes_lt x y ≡ true =
        first_less x y xs hx.0 hx.1 (ground (arith, same y, bytes_eq_refl y)) in
      absurd (ground (arith, bytes_lt_trans x y x above below, bytes_lt_irrefl x))
]

rest_same :
    (x : Bytes) (xs ys : List Bytes)
    → IsAscending (x ∷ xs)
    → IsAscending (x ∷ ys)
    → ((k : Bytes) → contains k (x ∷ xs) ≡ contains k (x ∷ ys))
    → (k : Bytes) → contains k xs ≡ contains k ys
rest_same x xs ys hx hy same k = elim (Bool-cases (bytes_eq x k)) [
  | inl equal ↦
      rw (← (bytes_eq_iff x k).0 equal, not_first x xs hx.0 hx.1, not_first x ys hy.0 hy.1) refl
  | inr apart ↦ rw apart at (same k)
]

-- Ascending lists with the same elements are the same.
ascending_unique :
    (xs ys : List Bytes)
    → IsAscending xs
    → IsAscending ys
    → ((k : Bytes) → contains k xs ≡ contains k ys)
    → xs ≡ ys
ascending_unique [] [] hx hy same = refl
ascending_unique [] (y ∷ ys) hx hy same = absurd (ground (arith, same y, bytes_eq_refl y))
ascending_unique (x ∷ xs) [] hx hy same = absurd (ground (arith, same x, bytes_eq_refl x))
ascending_unique (x ∷ xs) (y ∷ ys) hx hy same =
    let first = same_first x y xs ys hx hy same in
    let hy' : IsAscending (x ∷ ys) = rw first hy in
    let same' : (k : Bytes) → contains k (x ∷ xs) ≡ contains k (x ∷ ys) =
      λ k. same k ∙ (rw first refl) in
    rw (← first) (
      ap (λ (zs : List Bytes). x ∷ zs)
        (ascending_unique xs ys hx.1 hy.1 (rest_same x xs ys hx hy' same')))

-- The keys of the log that the test accepts, each once.
unfoldable pub selected : (Bytes → Bool) → List Record → List Bytes
selected test [] = []
selected test (r ∷ rs) =
    let keys = selected test rs in
    if test r.key && not (contains r.key keys) then r.key ∷ keys else keys

abbrev names : Bytes → List Record → Bool
names k [] = false
names k (r ∷ rs) = bytes_eq r.key k || names k rs

contains-selected :
    (test : Bytes → Bool) (k : Bytes) (rs : List Record)
    → contains k (selected test rs) ≡ (test k && names k rs)
unfolding selected
contains-selected test k [] = ground arith
contains-selected test k (r ∷ rs) =
    let again = contains-selected test k rs in
    elim (Bool-cases (bytes_eq r.key k)) [
      | inl same ↦
          let here = (bytes_eq_iff r.key k).0 same in
          let tested : test r.key ≡ test k = ap test here in
          let held : contains r.key (selected test rs) ≡ contains k (selected test rs) =
            ap (λ (j : Bytes). contains j (selected test rs)) here in
          ground (arith, same, again, tested, held)
      | inr other ↦ elim (Bool-cases (test r.key && not (contains r.key (selected test rs)))) [
        | inl new ↦ rw (new, other) again
        | inr old ↦ rw (old, other) again
      ]
    ]

selected-IsDistinct : (test : Bytes → Bool) (rs : List Record) → IsDistinct (selected test rs)
unfolding selected
selected-IsDistinct test [] = tt
selected-IsDistinct test (r ∷ rs) =
    elim (Bool-cases (test r.key && not (contains r.key (selected test rs)))) [
      | inl new ↦ rw new (ground (arith, new), selected-IsDistinct test rs)
      | inr old ↦ rw old (selected-IsDistinct test rs)
    ]

-- A key with a value is the key of a record.
slot_named :
    (k : Bytes) (position : ℕ) (rs : List Record)
    → names k rs ≡ false
    → slot_from k position rs none ≡ none
unfolding slot_from
slot_named k position [] h = refl
slot_named k position (r ∷ rs) h =
    let other : bytes_eq r.key k ≡ false = ground (arith, h) in
    rw other (slot_named k (position + record_size r) rs (ground (arith, h)))

-- The keys with the prefix to which the log gives a value, in ascending order.
abbrev pub listing : ℕ → List Record → Bytes → List Bytes
listing now_ms log prefix =
    sort (λ key. key) (selected (λ key. has_prefix prefix key && is_some (view now_ms log key)) log)

contains-listing :
    (now_ms : ℕ) (log : List Record) (prefix k : Bytes)
    → contains k (listing now_ms log prefix) ≡ (has_prefix prefix k && is_some (view now_ms log k))
contains-listing now_ms log prefix k =
    contains-sort k _ ∙ contains-selected _ k log ∙ elim (Bool-cases (names k log)) [
      | inl named ↦ ground (arith, named)
      | inr absent ↦
          let gone : view now_ms log k ≡ none = rw (slot_named k 0 log absent) refl in
          rw gone (ground (arith, absent))
    ]

pub keys_listing :
    (now_ms : ℕ) (s : Store) (log : List Record) (prefix : Bytes)
    → Represents now_ms s log
    → s.opened ≡ true
    → (keys now_ms s prefix).1 ≡ succeed (listing now_ms log prefix)
keys_listing now_ms s log prefix h opened =
    let listed = keys_lem now_ms s log h opened prefix in
    listed.returned
    ∙ ap (λ (xs : List Bytes). succeed xs)
        (ascending_unique listed.listed (listing now_ms log prefix) listed.ascending
          (sort-IsAscending _ (selected-IsDistinct _ log))
          (λ k. listed.exact k ∙ sym (contains-listing now_ms log prefix k)))
