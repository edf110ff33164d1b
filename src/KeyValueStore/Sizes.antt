-- ===== src/KeyValueStore/Sizes.antt =====
-- The size of the live records of a log.
use mini_kvstore.Prelude.{
  ℕ, ◌+◌, ◌≤◌, ◌≡◌, refl, ap, true, false, Option, none, some, Bool-cases, inl, inr, List, [], ◌∷◌,
  All, Bytes, bytes_eq, bytes_eq_iff, length, arith, if◌then◌else◌,
}
use mini_kvstore.Record.{Operation, Record}
use mini_kvstore.AppendOnlyStore.{metadata_of, record_size}
use mini_kvstore.AppendOnlyStore.Header.RoundTrip.{IsStorable}
use mini_kvstore.AppendOnlyStore.Recovery.Log.{log_size}
use mini_kvstore.KeyValueStore.Slots.{Slot, slot_of, slot_from, slot_at}
use mini_kvstore.KeyValueStore.Lookup.{lookup, AreEntries}

-- The SET record that a slot comes from.
abbrev pub slot_record : Bytes → Slot → Record
slot_record k slot = record {
  operation = Operation.set;
  key = k;
  value = slot.value;
  expires_at_ms = slot.metadata.expires_at_ms;
}

-- The record is that of the slot of its key.
abbrev pub ComesFrom : List Record → Record → Type 0
ComesFrom log r = (slot : Slot) × (slot_at r.key log ≡ some slot) × (r ≡ slot_record r.key slot)

abbrev weight : Bytes → Option Slot → ℕ
weight k none = 0
weight k (some slot) = record_size (slot_record k slot)

-- The size of the slots of the records' keys.
abbrev total : (Bytes → Option Slot) → List Record → ℕ
total slot [] = 0
total slot (r ∷ rs) = weight r.key (slot r.key) + total slot rs

abbrev updated : ℕ → Record → (Bytes → Option Slot) → Bytes → Option Slot
updated position r slot k = if bytes_eq r.key k then slot_of position r else slot k

weight-slot_of :
    (k : Bytes) (position : ℕ) (r : Record)
    → bytes_eq r.key k ≡ true
    → weight k (slot_of position r) ≤ record_size r
weight-slot_of k position r same = by_operation r.operation
  where
    by_operation :
        (operation : Operation)
        → weight k (elim operation [
          | Operation.delete ↦ none
          | Operation.set ↦ some (record { metadata = metadata_of r position; value = r.value })
        ])
          ≤ record_size r
    by_operation Operation.delete = omega arith
    by_operation Operation.set =
        omega (arith, ap (λ (b : Bytes). length b) ((bytes_eq_iff r.key k).0 same))

total_unchanged :
    (position : ℕ) (r : Record) (slot : Bytes → Option Slot) (rs : List Record)
    → lookup r.key rs ≡ none
    → total (updated position r slot) rs ≡ total slot rs
total_unchanged position r slot [] absent = refl
total_unchanged position r slot (e ∷ es) absent = elim (Bool-cases (bytes_eq e.key r.key)) [
  | inl same ↦ absurd (ground (arith, absent))
  | inr other ↦
      let other' : bytes_eq r.key e.key ≡ false =
        ground (arith, bytes_eq_iff r.key e.key, bytes_eq_iff e.key r.key) in
      rw (other', total_unchanged position r slot es (ground (arith, absent))) refl
]

total-updated :
    (position : ℕ) (r : Record) (slot : Bytes → Option Slot) (rs : List Record)
    → AreEntries rs
    → total (updated position r slot) rs ≤ total slot rs + record_size r
total-updated position r slot [] h = omega arith
total-updated position r slot (e ∷ es) h = elim (Bool-cases (bytes_eq r.key e.key)) [
  | inl same ↦
      let absent : lookup r.key es ≡ none = rw (← (bytes_eq_iff r.key e.key).0 same) at h.1 in
      rw same (
        omega
          (arith, total_unchanged position r slot es absent, weight-slot_of e.key position r same))
  | inr other ↦ rw other (omega (arith, total-updated position r slot es h.2))
]

total-slot_from :
    (position : ℕ) (log : List Record) (slot : Bytes → Option Slot) (rs : List Record)
    → AreEntries rs
    → total (λ k. slot_from k position log (slot k)) rs ≤ total slot rs + log_size log
unfolding slot_from
total-slot_from position [] slot rs h = omega arith
total-slot_from position (r ∷ log) slot rs h = omega (
  arith,
  total-slot_from (position + record_size r) log (updated position r slot) rs h,
  total-updated position r slot rs h,
)

total_nothing : (rs : List Record) → total (λ k. none) rs ≡ 0
total_nothing [] = refl
total_nothing (r ∷ rs) = omega (arith, total_nothing rs)

total_of_records :
    (log rs : List Record) → All (ComesFrom log) rs → log_size rs ≡ total (λ k. slot_at k log) rs
total_of_records log [] h = refl
total_of_records log (r ∷ rs) ((slot, at, same), h) =
    rw at (omega (arith, total_of_records log rs h, ap (λ (e : Record). record_size e) same))

pub log_size_lives :
    (log rs : List Record) → AreEntries rs → All (ComesFrom log) rs → log_size rs ≤ log_size log
log_size_lives log rs entries h = omega (
  arith,
  total_of_records log rs h,
  total-slot_from 0 log (λ k. none) rs entries,
  total_nothing rs,
)

-- What a slot comes from is acceptable to the storage, if the log is.
abbrev Acceptable : Bytes → Option Slot → Type 0
Acceptable k none = Unit
Acceptable k (some slot) = IsStorable (slot_record k slot)

Acceptable-slot_of :
    (k : Bytes) (position : ℕ) (r : Record)
    → IsStorable r
    → bytes_eq r.key k ≡ true
    → Acceptable k (slot_of position r)
Acceptable-slot_of k position r h same = by_operation r.operation
  where
    by_operation :
        (operation : Operation)
        → Acceptable k (elim operation [
          | Operation.delete ↦ none
          | Operation.set ↦ some (record { metadata = metadata_of r position; value = r.value })
        ])
    by_operation Operation.delete = tt
    by_operation Operation.set = rw (← (bytes_eq_iff r.key k).0 same) (record {
      key_some = h.key_some;
      key_fits = h.key_fits;
      value_fits = h.value_fits;
      tombstone = λ e. ground arith;
      expiry_word = h.expiry_word;
    })

slot_from-Acceptable :
    (k : Bytes) (position : ℕ) (log : List Record) (slot : Option Slot)
    → All IsStorable log
    → Acceptable k slot
    → Acceptable k (slot_from k position log slot)
unfolding slot_from
slot_from-Acceptable k position [] slot hs h = h
slot_from-Acceptable k position (r ∷ log) slot hs h =
    slot_from-Acceptable k (position + record_size r) log _ hs.1
      (elim (Bool-cases (bytes_eq r.key k)) [
        | inl same ↦ rw same (Acceptable-slot_of k position r hs.0 same)
        | inr other ↦ rw other h
      ])

pub IsStorable-lives :
    (log rs : List Record) → All IsStorable log → All (ComesFrom log) rs → All IsStorable rs
IsStorable-lives log [] hs h = tt
IsStorable-lives log (r ∷ rs) hs ((slot, at, same), h) =
    (rw same (rw at at (slot_from-Acceptable r.key 0 log none hs tt)), IsStorable-lives log rs hs h)
