-- ===== src/AppendOnlyStore/Reading.antt =====
-- `readValue`: what it returns, and that it leaves the data file as it was.
use mini_kvstore.Prelude.{
  ℕ, zero, suc, ◌+◌, ◌≤◌, ◌≡◌, ◌≢◌, refl, some, Option-cases, inl, inr, Bytes, length, take, drop,
  take-take_le, arith, [], ◌∷◌, length-take, length-drop,
}
use mini_kvstore.Status.{Status, not_found}
use mini_kvstore.Result.{succeed, fail}
use mini_kvstore.Record.{RecordMetadata}
use mini_kvstore.AppendOnlyStore.{
  Faults, OpenFaults, IsHealthy, Storage, readable, ensure_open_locked, ensure_open_locked_lem,
  read_opened, read_value,
}

pub data-ensure_open_locked :
    (f : OpenFaults) (s : Storage) (content : Bytes)
    → s.data_file ≡ some content
    → (ensure_open_locked f s).0.data_file ≡ some content
unfolding ensure_open_locked
data-ensure_open_locked f s content h = ground arith

-- A read leaves the data file as it was, whatever fails.
pub data-read_value :
    (f : Faults) (s : Storage) (metadata : RecordMetadata) (content : Bytes)
    → s.data_file ≡ some content
    → (read_value f s metadata).0.data_file ≡ some content
unfolding read_value
data-read_value f s metadata content h = ground (arith, data-ensure_open_locked f.first s content h)

-- A full read of a part of a shortened file is a read of that part of the file.
take-drop-take :
    (n m limit : ℕ) (xs : Bytes)
    → length (take n (drop m (take limit xs))) ≡ n
    → take n (drop m (take limit xs)) ≡ take n (drop m xs)
unfolding take drop
take-drop-take zero m zero xs h = refl
take-drop-take (suc n) m zero xs h =
    absurd (omega (arith, length-drop {A = ℕ} m [], length-take (suc n) (drop {A = ℕ} m [])))
take-drop-take n m (suc limit) [] h = refl
take-drop-take n zero (suc limit) (x ∷ xs) h =
    take-take_le n (suc limit) (x ∷ xs)
      (omega (arith, length-take n (take (suc limit) (x ∷ xs)), length-take (suc limit) (x ∷ xs)))
take-drop-take n (suc m) (suc limit) (x ∷ xs) h = take-drop-take n m limit xs h

full_read :
    (f : Faults) (n m : ℕ) (content : Bytes)
    → length (take n (drop m (readable f content))) ≡ n
    → take n (drop m (readable f content)) ≡ take n (drop m content)
unfolding readable
full_read f n m content h = elim (Option-cases f.read_limit) [
  | inl whole ↦ rw whole
  | inr (limit, part) ↦ rw part (take-drop-take n m limit content (rw part at h))
]

module _ (f : Faults) (s : Storage) (metadata : RecordMetadata) (content : Bytes)
    (file : s.data_file ≡ some content) where
  -- Whatever calls of the operating system fail and however much of the file can be read: a read that
  -- succeeds returns the bytes of the data file at the place and of the size that the metadata say.
  pub read_value_sound :
      (value : Bytes)
      → (read_value f s metadata).1 ≡ succeed value
      → value ≡ take metadata.value_size (drop metadata.value_offset content)
  unfolding read_value read_opened
  read_value_sound value h = ground (
    arith,
    data-ensure_open_locked f.first s content file,
    full_read f metadata.value_size metadata.value_offset content,
  )

  pub read_value_healthy :
      IsHealthy f
      → metadata.value_offset + metadata.value_size ≤ length content
      → (read_value f s metadata).1
        ≡ succeed (take metadata.value_size (drop metadata.value_offset content))
  unfolding read_value read_opened readable
  read_value_healthy h inside = ground (
    arith,
    ensure_open_locked_lem f s h,
    length-take metadata.value_size (drop metadata.value_offset content),
    length-drop metadata.value_offset content,
  )

-- No read answers NOT_FOUND.
pub read_value_code :
    (f : Faults) (s : Storage) (metadata : RecordMetadata) (st : Status)
    → (read_value f s metadata).1 ≡ fail st
    → st.code ≢ not_found
unfolding read_value read_opened ensure_open_locked
read_value_code f s metadata st h = λ e. ground arith
