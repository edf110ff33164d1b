-- ===== src/KeyValueStore/Represents.antt =====
-- The invariant of the store: which log it stands for, and what its index and its cache may hold.
use mini_kvstore.Prelude.{
  ℕ, ◌+◌, ◌^◌, ◌≤◌, ◌<◌, ◌≡◌, refl, true, Option, none, some, List, [], ◌∷◌, All, Bytes, bytes_eq,
  bytes_key, arith, if◌then◌else◌, Bool-cases, inl, inr,
}
use mini_kvstore.UnorderedMap.{
  find, assign, erase, IsMap, IsMap-assign, IsMap-erase, find-assign, find-erase,
}
use mini_kvstore.Record.{Operation, Record, RecordMetadata, is_expired}
use mini_kvstore.LruCache.Links.{IsValid}
use mini_kvstore.LruCache.Cached.{cached}
use mini_kvstore.AppendOnlyStore.Header.RoundTrip.{IsStorable}
use mini_kvstore.AppendOnlyStore.{metadata_of, record_size}
use mini_kvstore.AppendOnlyStore.Recovery.{Index}
use mini_kvstore.AppendOnlyStore.Recovery.Log.{encode_all, log_size, apply_record, replay}
use mini_kvstore.KeyValueStore.{Store}
use mini_kvstore.KeyValueStore.Slots.{Slot, slot_of, slot_from, slot_at}

-- The index entry of a key against its slot: the same metadata, or no entry although the slot is
-- there, if that has expired.
abbrev pub Agrees : ℕ → Option RecordMetadata → Option Slot → Type 0
Agrees clock none none = Unit
Agrees clock none (some slot) = is_expired slot.metadata.expires_at_ms clock ≡ true
Agrees clock (some metadata) none = ⊥
Agrees clock (some metadata) (some slot) = metadata ≡ slot.metadata

abbrev pub slot_value : Option Slot → Option Bytes
slot_value none = none
slot_value (some slot) = some slot.value

-- At the time `clock` the store stands for the log: the data file holds its records, the index
-- agrees with its slots, and what is cached for a key is the value of its slot.
pub record Represents (clock : ℕ) (s : Store) (log : List Record) : Type 0 where
  pub file : s.storage.data_file ≡ some (encode_all log)
  pub storable : All IsStorable log
  pub small : log_size log < 2 ^ 64
  pub index_map : IsMap s.index
  pub index_agrees : (k : Bytes) → Agrees clock (find k s.index) (slot_at k log)
  pub cache_valid : IsValid s.cache
  pub cache_agrees : (k v : Bytes) → cached s.cache k ≡ some v → slot_value (slot_at k log) ≡ some v

-- What a log says to a reader at the time `now_ms`.
abbrev pub live : ℕ → Option Slot → Option Bytes
live now_ms none = none
live now_ms (some slot) =
    if is_expired slot.metadata.expires_at_ms now_ms then none else some slot.value

abbrev pub view : ℕ → List Record → Bytes → Option Bytes
view now_ms log k = live now_ms (slot_at k log)

-- What has expired stays expired.
pub is_expired_mono :
    (expires_at_ms clock now_ms : ℕ)
    → clock ≤ now_ms
    → now_ms < 2 ^ 63
    → is_expired expires_at_ms clock ≡ true
    → is_expired expires_at_ms now_ms ≡ true
unfolding is_expired
is_expired_mono expires_at_ms clock now_ms later word h = ground arith

Agrees-later :
    (clock now_ms : ℕ) (found : Option RecordMetadata) (slot : Option Slot)
    → clock ≤ now_ms
    → now_ms < 2 ^ 63
    → Agrees clock found slot
    → Agrees now_ms found slot
Agrees-later clock now_ms none none later word h = tt
Agrees-later clock now_ms none (some slot) later word h =
    is_expired_mono slot.metadata.expires_at_ms clock now_ms later word h
Agrees-later clock now_ms (some m) none later word h = h
Agrees-later clock now_ms (some m) (some slot) later word h = h

-- Time may pass.
pub Represents-later :
    {clock : ℕ} (now_ms : ℕ) {s : Store} {log : List Record}
    → clock ≤ now_ms
    → now_ms < 2 ^ 63
    → Represents clock s log
    → Represents now_ms s log
Represents-later {clock} now_ms later word h = record {
  file = h.file;
  storable = h.storable;
  small = h.small;
  index_map = h.index_map;
  index_agrees = λ k. Agrees-later clock now_ms _ _ later word (h.index_agrees k);
  cache_valid = h.cache_valid;
  cache_agrees = h.cache_agrees;
}

pub erase-Agrees :
    (now_ms : ℕ) (key k : Bytes) (index : Index) (new slot : Option Slot)
    → IsMap index
    → Agrees now_ms none new
    → Agrees now_ms (find k index) slot
    → Agrees now_ms (find k (erase key index)) (if bytes_eq key k then new else slot)
erase-Agrees now_ms key k index new slot m gone h = elim (Bool-cases (bytes_eq key k)) [
  | inl same ↦ rw (find-erase key k index m, same) gone
  | inr other ↦ rw (find-erase key k index m, other) h
]

pub assign-Agrees :
    (now_ms : ℕ) (key k : Bytes) (index : Index) (metadata : RecordMetadata) (value : Bytes)
    (slot : Option Slot)
    → Agrees now_ms (find k index) slot
    → Agrees now_ms
        (find k (assign key metadata index))
        (if bytes_eq key k then some (record { metadata = metadata; value = value }) else slot)
assign-Agrees now_ms key k index metadata value slot h = elim (Bool-cases (bytes_eq key k)) [
  | inl same ↦ rw (find-assign key k metadata index, same) refl
  | inr other ↦ rw (find-assign key k metadata index, other) h
]

-- The index after one record agrees with the slots after it.
apply_record-Agrees :
    (now_ms position : ℕ) (r : Record) (index : Index) (k : Bytes) (slot : Option Slot)
    → IsMap index
    → Agrees now_ms (find k index) slot
    → Agrees now_ms
        (find k (apply_record now_ms position r index))
        (if bytes_eq r.key k then slot_of position r else slot)
apply_record-Agrees now_ms position r index k slot m h = by_operation r.operation
  where
    by_operation :
        (operation : Operation)
        → Agrees now_ms
            (find k (elim operation [
              | Operation.delete ↦ erase r.key index
              | Operation.set ↦
                  if is_expired r.expires_at_ms now_ms
                  then erase r.key index
                  else assign r.key (metadata_of r position) index
            ]))
            (if bytes_eq r.key k
              then (elim operation [
                | Operation.delete ↦ none
                | Operation.set ↦
                    some (record { metadata = metadata_of r position; value = r.value })
              ])
              else slot)
    by_operation Operation.delete = erase-Agrees now_ms r.key k index none slot m tt h
    by_operation Operation.set = elim (Bool-cases (is_expired r.expires_at_ms now_ms)) [
      | inl expired ↦ rw expired (erase-Agrees now_ms r.key k index _ slot m expired h)
      | inr fresh ↦
          rw fresh (assign-Agrees now_ms r.key k index (metadata_of r position) r.value slot h)
    ]

apply_record-IsMap :
    (now_ms position : ℕ) (r : Record) (index : Index)
    → IsMap index
    → IsMap (apply_record now_ms position r index)
apply_record-IsMap now_ms position r index m = by_operation r.operation
  where
    by_operation :
        (operation : Operation)
        → IsMap (elim operation [
          | Operation.delete ↦ erase r.key index
          | Operation.set ↦
              if is_expired r.expires_at_ms now_ms
              then erase r.key index
              else assign r.key (metadata_of r position) index
        ])
    by_operation Operation.delete = IsMap-erase r.key index m
    by_operation Operation.set = elim (Bool-cases (is_expired r.expires_at_ms now_ms)) [
      | inl expired ↦ rw expired (IsMap-erase r.key index m)
      | inr fresh ↦ rw fresh (IsMap-assign r.key (metadata_of r position) index m)
    ]

pub replay-IsMap :
    (now_ms position : ℕ) (rs : List Record) (index : Index)
    → IsMap index
    → IsMap (replay now_ms position rs index)
unfolding replay
replay-IsMap now_ms position [] index m = m
replay-IsMap now_ms position (r ∷ rs) index m =
    replay-IsMap now_ms (position + record_size r) rs _
      (apply_record-IsMap now_ms position r index m)

pub replay-Agrees :
    (now_ms position : ℕ) (rs : List Record) (index : Index) (k : Bytes) (slot : Option Slot)
    → IsMap index
    → Agrees now_ms (find k index) slot
    → Agrees now_ms (find k (replay now_ms position rs index)) (slot_from k position rs slot)
unfolding replay slot_from
replay-Agrees now_ms position [] index k slot m h = h
replay-Agrees now_ms position (r ∷ rs) index k slot m h =
    replay-Agrees now_ms (position + record_size r) rs _ k _
      (apply_record-IsMap now_ms position r index m)
      (apply_record-Agrees now_ms position r index k slot m h)
