-- ===== src/KeyValueStore/Collecting.antt =====
-- The loop of `compact` that reads the live values, against the slots of the log.
use mini_kvstore.Prelude.{
  ◌^◌, ◌<◌, ◌≡◌, refl, ◌∙◌, false, none, some, Bool-cases, inl, inr, List, [], ◌∷◌, All, Bytes,
  bytes_key, bytes_eq, arith,
}
use mini_kvstore.UnorderedMap.{find, IsMap, find_absent}
use mini_kvstore.Status.{Status}
use mini_kvstore.Result.{Result, succeed, fail, Result-cases}
use mini_kvstore.Record.{Operation, Record, RecordMetadata}
use mini_kvstore.AppendOnlyStore.{Faults, Storage, read_value}
use mini_kvstore.AppendOnlyStore.Header.RoundTrip.{IsStorable}
use mini_kvstore.AppendOnlyStore.Reading.{data-read_value, read_value_sound}
use mini_kvstore.AppendOnlyStore.Recovery.{Index}
use mini_kvstore.AppendOnlyStore.Recovery.Log.{encode_all, log_size}
use mini_kvstore.KeyValueStore.Slots.{Slot, IsReadable, slot_at, slot_at-Readable}
use mini_kvstore.KeyValueStore.Sweep.{collect_live}
use mini_kvstore.KeyValueStore.Sweeping.{is_some}
use mini_kvstore.KeyValueStore.Lookup.{lookup, AreEntries}
use mini_kvstore.KeyValueStore.Sizes.{ComesFrom}

-- Each entry of the index is the metadata of the key's slot.
abbrev pub AreSlots : List Record → Index → Type 0
AreSlots log [] = Unit
AreSlots log ((key, metadata) ∷ rest) =
    ((slot : Slot) × (slot_at key log ≡ some slot) × (metadata ≡ slot.metadata)) × AreSlots log rest

-- What has been collected from an index: the record of each of its keys, from the key's slot.
pub record Collected (log : List Record) (index : Index) (rs : List Record) : Type 0 where
  pub entries : AreEntries rs
  pub origins : All (ComesFrom log) rs
  pub keys : (k : Bytes) → is_some (lookup k rs) ≡ is_some (find k index)

absent_lookup : (k : Bytes) (rs : List Record) → is_some (lookup k rs) ≡ false → lookup k rs ≡ none
absent_lookup k rs h = ground (arith, h)

got : (xs rs : List Record) → ◌≡◌ {A = Result (List Record)} (succeed xs) (succeed rs) → xs ≡ rs
got xs rs h = ground (arith, h)

lost : (st : Status) (rs : List Record) → ◌≡◌ {A = Result (List Record)} (fail st) (succeed rs) → ⊥
lost st rs h = ground (arith, h)

nothing-Collected : (log : List Record) → Collected log [] []
unfolding find
nothing-Collected log = record { entries = tt; origins = tt; keys = λ k. refl }

module _ (reads : Bytes → Faults) (log : List Record) (storable : All IsStorable log)
    (small : log_size log < 2 ^ 64) where
  module _ (s : Storage) (key : Bytes) (metadata : RecordMetadata) (rest : Index) where
    collect_failed :
        (st : Status)
        → (read_value (reads key) s metadata).1 ≡ fail st
        → collect_live reads s ((key, metadata) ∷ rest)
          ≡ ((read_value (reads key) s metadata).0, fail st)
    unfolding collect_live
    collect_failed st failed = rw (failed, collect_live) refl

    collect_rest_failed :
        (value : Bytes) (st : Status)
        → (read_value (reads key) s metadata).1 ≡ succeed value
        → (collect_live reads (read_value (reads key) s metadata).0 rest).1 ≡ fail st
        → collect_live reads s ((key, metadata) ∷ rest)
          ≡ ((collect_live reads (read_value (reads key) s metadata).0 rest).0, fail st)
    unfolding collect_live
    collect_rest_failed value st read failed = rw (read, failed, collect_live) refl

    collect_more :
        (value : Bytes) (rs : List Record)
        → (read_value (reads key) s metadata).1 ≡ succeed value
        → (collect_live reads (read_value (reads key) s metadata).0 rest).1 ≡ succeed rs
        → collect_live reads s ((key, metadata) ∷ rest) ≡ (
          (collect_live reads (read_value (reads key) s metadata).0 rest).0,
          succeed (
              record {
                operation = Operation.set;
                key = key;
                value = value;
                expires_at_ms = metadata.expires_at_ms;
              }
              ∷ rs),
        )
    unfolding collect_live
    collect_more value rs read collected = rw (read, collected, collect_live) refl

  -- The data file is only read.
  pub data-collect_live :
      (s : Storage) (index : Index)
      → s.data_file ≡ some (encode_all log)
      → (collect_live reads s index).0.data_file ≡ some (encode_all log)
  data-collect_live s [] file = unfold collect_live in file
  data-collect_live s ((key, metadata) ∷ rest) file =
      let kept = data-read_value (reads key) s metadata (encode_all log) file in
      let again = data-collect_live (read_value (reads key) s metadata).0 rest kept in
      elim (Result-cases (read_value (reads key) s metadata).1) [
        | inl (value, read) ↦
            elim (Result-cases (collect_live reads (read_value (reads key) s metadata).0 rest).1) [
              | inl (rs, collected) ↦
                  rw (collect_more s key metadata rest value rs read collected) again
              | inr (st, failed) ↦
                  rw (collect_rest_failed s key metadata rest value st read failed) again
            ]
        | inr (st, failed) ↦ rw (collect_failed s key metadata rest st failed) kept
      ]

  -- One more record.
  Collected-more :
      (s : Storage) (key value : Bytes) (metadata : RecordMetadata) (rest : Index)
      (rs : List Record)
      → s.data_file ≡ some (encode_all log)
      → IsMap ((key, metadata) ∷ rest)
      → AreSlots log ((key, metadata) ∷ rest)
      → (read_value (reads key) s metadata).1 ≡ succeed value
      → Collected log rest rs
      → Collected log ((key, metadata) ∷ rest) (
          record {
            operation = Operation.set;
            key = key;
            value = value;
            expires_at_ms = metadata.expires_at_ms;
          }
          ∷ rs)
  unfolding find
  Collected-more s key value metadata rest rs file m ((slot, at, same), slots) read c =
      let readable : IsReadable (encode_all log) slot =
        rw at at (slot_at-Readable key log storable small) in
      let sound : value ≡ slot.value =
        read_value_sound (reads key) s metadata (encode_all log) file value read
        ∙ (rw same readable.0) in
      record {
        entries = (
          refl,
          absent_lookup key rs (c.keys key ∙ (rw (find_absent key rest m.0) refl)),
          c.entries,
        );
        origins = ((slot, at, rw (sound, same) refl), c.origins);
        keys = λ k. elim (Bool-cases (bytes_eq key k)) [
          | inl here ↦ rw here refl
          | inr other ↦ rw other (c.keys k)
        ];
      }

  pub collect_live-Collected :
      (s : Storage) (index : Index) (rs : List Record)
      → s.data_file ≡ some (encode_all log)
      → IsMap index
      → AreSlots log index
      → (collect_live reads s index).1 ≡ succeed rs
      → Collected log index rs
  collect_live-Collected s [] rs file m slots done =
      rw (← got [] rs (unfold collect_live in done)) (nothing-Collected log)
  collect_live-Collected s ((key, metadata) ∷ rest) rs file m slots done =
      let kept = data-read_value (reads key) s metadata (encode_all log) file in
      elim (Result-cases (read_value (reads key) s metadata).1) [
        | inl (value, read) ↦
            elim (Result-cases (collect_live reads (read_value (reads key) s metadata).0 rest).1) [
              | inl (rs', collected) ↦
                  let c =
                    collect_live-Collected (read_value (reads key) s metadata).0 rest rs' kept m.1
                      slots.1 collected in
                  rw
                    (← got _ rs
                      (rw (collect_more s key metadata rest value rs' read collected) at done))
                    (Collected-more s key value metadata rest rs' file m slots read c)
              | inr (st, failed) ↦ absurd (
                  lost st rs
                    (rw (collect_rest_failed s key metadata rest value st read failed) at done))
            ]
        | inr (st, failed) ↦
            absurd (lost st rs (rw (collect_failed s key metadata rest st failed) at done))
      ]
