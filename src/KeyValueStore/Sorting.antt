-- ===== src/KeyValueStore/Sorting.antt =====
-- What `std::sort` does to a list of different byte strings.
use mini_kvstore.Prelude.{
  ◌≡◌, refl, Bool, true, false, ◌||◌, Bool-cases, inl, inr, List, [], ◌∷◌, Bytes, bytes_eq,
  bytes_lt, insert_sorted, sort, arith,
}

abbrev pub contains : Bytes → List Bytes → Bool
contains k [] = false
contains k (x ∷ xs) = bytes_eq x k || contains k xs

-- `x` is less than the first element.
abbrev pub Below : Bytes → List Bytes → Type 0
Below x [] = Unit
Below x (y ∷ ys) = bytes_lt x y ≡ true

-- Each element is less than the next.
abbrev pub IsAscending : List Bytes → Type 0
IsAscending [] = Unit
IsAscending (x ∷ xs) = Below x xs × IsAscending xs

-- No element stands twice.
abbrev pub IsDistinct : List Bytes → Type 0
IsDistinct [] = Unit
IsDistinct (x ∷ xs) = (contains x xs ≡ false) × IsDistinct xs

bytes_lt_total :
    (xs ys : Bytes) → bytes_lt ys xs ≡ false → bytes_eq ys xs ≡ false → bytes_lt xs ys ≡ true
unfolding bytes_lt bytes_eq
bytes_lt_total [] [] h d = ground arith
bytes_lt_total [] (y ∷ ys) h d = refl
bytes_lt_total (x ∷ xs) [] h d = ground arith
bytes_lt_total (x ∷ xs) (y ∷ ys) h d = ground (arith, bytes_lt_total xs ys)

abbrev insert : Bytes → List Bytes → List Bytes
insert x ys = insert_sorted (λ (k : Bytes). k) x ys

contains-insert :
    (k x : Bytes) (ys : List Bytes) → contains k (insert x ys) ≡ (bytes_eq x k || contains k ys)
unfolding insert_sorted
contains-insert k x [] = refl
contains-insert k x (y ∷ ys) = ground (arith, contains-insert k x ys)

Below-insert :
    (y x : Bytes) (zs : List Bytes) → bytes_lt y x ≡ true → Below y zs → Below y (insert x zs)
unfolding insert_sorted
Below-insert y x [] less below = less
Below-insert y x (z ∷ zs) less below = elim (Bool-cases (bytes_lt z x)) [
  | inl after ↦ rw after below
  | inr before ↦ rw before less
]

insert-IsAscending :
    (x : Bytes) (ys : List Bytes)
    → contains x ys ≡ false
    → IsAscending ys
    → IsAscending (insert x ys)
unfolding insert_sorted
insert-IsAscending x [] new h = (tt, tt)
insert-IsAscending x (y ∷ ys) new h = elim (Bool-cases (bytes_lt y x)) [
  | inl after ↦ rw after (Below-insert y x ys after h.0, insert-IsAscending x ys (ground arith) h.1)
  | inr before ↦ rw before (bytes_lt_total x y before (ground arith), h)
]

-- The sorted list has the same elements, in ascending order.
pub contains-sort :
    (k : Bytes) (xs : List Bytes) → contains k (sort (λ (x : Bytes). x) xs) ≡ contains k xs
unfolding sort
contains-sort k [] = refl
contains-sort k (x ∷ xs) = rw (contains-insert k x, contains-sort k xs) refl

pub sort-IsAscending : (xs : List Bytes) → IsDistinct xs → IsAscending (sort (λ (x : Bytes). x) xs)
unfolding sort
sort-IsAscending [] d = tt
sort-IsAscending (x ∷ xs) d =
    insert-IsAscending x _ (rw (contains-sort x xs) d.0) (sort-IsAscending xs d.1)
