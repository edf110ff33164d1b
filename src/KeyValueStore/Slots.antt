-- ===== src/KeyValueStore/Slots.antt =====
-- What a log says of a key: the last record of the key, if that is a SET, with its place in the file
-- and its value. This is the independent description that the store is held to; it knows nothing of
-- indexes, caches and expiry.
use mini_kvstore.Prelude.{
  ℕ, ◌+◌, ◌^◌, ◌≤◌, ◌<◌, ◌≡◌, refl, sym, ap, ◌∙◌, Option, none, some, List, [], ◌∷◌, ◌++◌, All,
  Bytes, bytes_eq, length, take, drop, length-append, append_assoc, take-append_le, drop-append_le,
  drop-append_ge, length-drop, append-nil, drop-append_length, take_of_length-le, arith,
  if◌then◌else◌, Bool-cases, inl, inr,
}
use mini_kvstore.Record.{Operation, Record, RecordMetadata, record_header_size, u32, u64}
use mini_kvstore.AppendOnlyStore.Header.{make_header}
use mini_kvstore.AppendOnlyStore.Header.RoundTrip.{IsStorable, length-make_header}
use mini_kvstore.AppendOnlyStore.{encode, metadata_of, record_size}
use mini_kvstore.AppendOnlyStore.Appending.{length-encode}
use mini_kvstore.AppendOnlyStore.Recovery.Log.{encode_all, log_size}

pub record Slot : Type 0 where
  pub metadata : RecordMetadata
  pub value : Bytes

-- What a record at `position` says of its key.
abbrev pub slot_of : ℕ → Record → Option Slot
slot_of position r = elim r.operation [
  | Operation.delete ↦ none
  | Operation.set ↦ some (record { metadata = metadata_of r position; value = r.value })
]

-- The slot of a key after the records from `position` on, from that before them.
unfoldable pub slot_from : Bytes → ℕ → List Record → Option Slot → Option Slot
slot_from k position [] slot = slot
slot_from k position (r ∷ rs) slot =
    slot_from k (position + record_size r) rs
      (if bytes_eq r.key k then slot_of position r else slot)

abbrev pub slot_at : Bytes → List Record → Option Slot
slot_at k log = slot_from k 0 log none

slot_from-append :
    (k : Bytes) (position : ℕ) (log : List Record) (r : Record) (slot : Option Slot)
    → slot_from k position (log ++ r ∷ []) slot ≡ (
        if bytes_eq r.key k
        then slot_of (position + log_size log) r
        else slot_from k position log slot)
unfolding slot_from
slot_from-append k position [] r slot = let e : position + 0 ≡ position = omega arith in rw e
slot_from-append k position (q ∷ log) r slot =
    let e : position + record_size q + log_size log ≡ position + (record_size q + log_size log) =
      omega arith in
    slot_from-append k (position + record_size q) log r _ ∙ rw e

-- One more record changes the slot of its key and of no other.
pub slot_at-append :
    (k : Bytes) (log : List Record) (r : Record)
    → slot_at k (log ++ r ∷ [])
      ≡ (if bytes_eq r.key k then slot_of (log_size log) r else slot_at k log)
slot_at-append k log r =
    slot_from-append k 0 log r none
    ∙ (let e : 0 + log_size log ≡ log_size log = omega arith in rw e)

pub encode_all-append :
    (log : List Record) (r : Record) → encode_all (log ++ r ∷ []) ≡ encode_all log ++ encode r
encode_all-append [] r = append-nil (encode r)
encode_all-append (q ∷ log) r =
    ap (λ (t : Bytes). encode q ++ t) (encode_all-append log r)
    ∙ sym (append_assoc (encode q) (encode_all log) (encode r))

pub log_size-append :
    (log : List Record) (r : Record) → log_size (log ++ r ∷ []) ≡ log_size log + record_size r
log_size-append [] r = omega arith
log_size-append (q ∷ log) r = omega (arith, log_size-append log r)

-- The bytes that `readValue` reads at a slot's place are the slot's value.
abbrev pub IsReadable : Bytes → Slot → Type 0
IsReadable file s =
    (take s.metadata.value_size (drop s.metadata.value_offset file) ≡ s.value)
    × (length s.value ≡ s.metadata.value_size)
    × (s.metadata.value_offset + s.metadata.value_size ≤ length file)

abbrev pub Readable : Bytes → Option Slot → Type 0
Readable file none = Unit
Readable file (some s) = IsReadable file s

-- More bytes behind the file do not matter.
IsReadable-append :
    (file more : Bytes) (slot : Option Slot) → Readable file slot → Readable (file ++ more) slot
IsReadable-append file more none h = tt
IsReadable-append file more (some s) h = (
  rw
      (
        drop-append_le s.metadata.value_offset file more (omega arith),
        take-append_le s.metadata.value_size (drop s.metadata.value_offset file) more
            (omega (arith, length-drop s.metadata.value_offset file)),
      )
      h.0,
  h.1,
  omega (arith, length-append file more),
)

module _ (file : Bytes) (position : ℕ) (r : Record) (h : IsStorable r) (at : position ≡ length file)
    (small : position + record_size r < 2 ^ 64) where
  drop_to_value :
      drop (u64 (position + record_header_size + length r.key)) (file ++ encode r) ≡ r.value
  drop_to_value =
      drop-append_ge _ (record_header_size + length r.key) file (encode r) (omega arith)
      ∙ drop-append_ge _ (length r.key) (make_header r) (r.key ++ r.value)
          (omega (arith, length-make_header r))
      ∙ drop-append_length r.key r.value (length r.key) refl

  set_Readable :
      IsReadable (file ++ encode r) (record { metadata = metadata_of r position; value = r.value })
  set_Readable = (
    rw drop_to_value
        (take_of_length-le (u32 (length r.value)) r.value (omega (arith, h.value_fits))),
    omega (arith, h.value_fits),
    omega (arith, length-append file (encode r), length-encode r, h.value_fits),
  )

  slot_of-Readable : Readable (file ++ encode r) (slot_of position r)
  slot_of-Readable = by_operation r.operation
    where
      by_operation :
          (operation : Operation)
          → Readable (file ++ encode r) (elim operation [
            | Operation.delete ↦ none
            | Operation.set ↦ some (record { metadata = metadata_of r position; value = r.value })
          ])
      by_operation Operation.delete = tt
      by_operation Operation.set = set_Readable

slot_from-Readable :
    (k : Bytes) (rs : List Record) (file : Bytes) (position : ℕ) (slot : Option Slot)
    → All IsStorable rs
    → position ≡ length file
    → position + log_size rs < 2 ^ 64
    → Readable file slot
    → Readable (file ++ encode_all rs) (slot_from k position rs slot)
unfolding slot_from
slot_from-Readable k [] file position slot hs at small h = rw append-nil h
slot_from-Readable k (r ∷ rs) file position slot hs at small h =
    rw (← append_assoc file (encode r) (encode_all rs)) (
      slot_from-Readable k rs (file ++ encode r) (position + record_size r) _ hs.1
        (omega (arith, length-append file (encode r), length-encode r)) (omega arith) next)
  where
    next : Readable (file ++ encode r) (if bytes_eq r.key k then slot_of position r else slot)
    next = elim (Bool-cases (bytes_eq r.key k)) [
      | inl same ↦ rw same (slot_of-Readable file position r hs.0 at (omega arith))
      | inr other ↦ rw other (IsReadable-append file (encode r) slot h)
    ]

-- Every slot of a log can be read in the data file of the log.
pub slot_at-Readable :
    (k : Bytes) (log : List Record)
    → All IsStorable log
    → log_size log < 2 ^ 64
    → Readable (encode_all log) (slot_at k log)
slot_at-Readable k log hs small = slot_from-Readable k log [] 0 none hs refl (omega arith) tt
