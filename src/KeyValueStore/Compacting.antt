-- ===== src/KeyValueStore/Compacting.antt =====
-- `compact` against the log that the store stands for.
use mini_kvstore.Prelude.{
  ℕ, ◌^◌, ◌≤◌, ◌<◌, ◌≡◌, ◌⊎◌, refl, ◌∙◌, true, none, some, inl, inr, List, Bytes, bytes_key, sort,
  length, arith,
}
use mini_kvstore.Status.{Status}
use mini_kvstore.Result.{Result, succeed, fail, Result-cases}
use mini_kvstore.Record.{Record}
use mini_kvstore.LruCache
use mini_kvstore.LruCache.{Cache}
use mini_kvstore.AppendOnlyStore.{Faults, Storage}
use mini_kvstore.AppendOnlyStore.Header.RoundTrip.{IsStorable}
use mini_kvstore.AppendOnlyStore.Recovery.Log.{encode_all, log_size, length-encode_all}
use mini_kvstore.AppendOnlyStore.Compaction.{CompactionState, compact as compact_storage}
use mini_kvstore.AppendOnlyStore.Compaction.Replacing.{compact-Replaced}
use mini_kvstore.KeyValueStore.{Store, bump}
use mini_kvstore.KeyValueStore.Represents.{Represents, view}
use mini_kvstore.KeyValueStore.Reads.{found_slot, refreshed}
use mini_kvstore.KeyValueStore.Sweep.{
  swept_store, collect_live, compact_with, compact, CompactionSummary,
}
use mini_kvstore.KeyValueStore.Sweeping.{swept_store-Represents}
use mini_kvstore.KeyValueStore.Lookup.{
  by_key, lookup-sort, sort-AreEntries, log_size-sort, All-sort, live-slot_from,
}
use mini_kvstore.KeyValueStore.Sizes.{log_size_lives, IsStorable-lives}
use mini_kvstore.KeyValueStore.Collecting.{
  AreSlots, Collected, data-collect_live, collect_live-Collected,
}
use mini_kvstore.KeyValueStore.Lives.{found-AreSlots, Collected-view, compacted-Represents}

-- A log that says the same at a time, in no more bytes.
pub record Replaces (later : ℕ) (log lives : List Record) : Type 0 where
  pub same : (k : Bytes) → view later lives k ≡ view later log k
  pub size : log_size lives ≤ log_size log

-- How `compact` can end.
abbrev pub Compacted : ℕ → ℕ → List Record → Store × Result CompactionSummary → Type 0
Compacted now_ms later log outcome =
    ((lives : List Record) × (summary : CompactionSummary) × (outcome.1 ≡ succeed summary)
      × Represents now_ms outcome.0 lives
      × Replaces later log lives
      × (summary.old_file_bytes ≡ log_size log)
      × (summary.new_file_bytes ≡ log_size lives))
    ⊎ ((st : Status) × (outcome.1 ≡ fail st)
        × (Represents now_ms outcome.0 log
            ⊎ ((lives : List Record) × (outcome.0.storage.data_file ≡ some (encode_all lives))
                × Replaces later log lives)))

module _ (reads : Bytes → Faults) (now_ms : ℕ) (s : Store) where
  abbrev swept : Store
  swept = swept_store now_ms s

  abbrev collecting : Storage × Result (List Record)
  collecting = collect_live reads swept.storage swept.index

  abbrev collected_store : Store
  collected_store = record swept { storage = collecting.0 }

  compact_failed :
      (st : Status)
      → s.opened ≡ true
      → collecting.1 ≡ fail st
      → (f : Faults) → compact reads f now_ms s ≡ (collected_store, fail st)
  unfolding compact
  compact_failed st opened failed f = ground (arith, opened, failed)

  compact_collected :
      (rs : List Record)
      → s.opened ≡ true
      → collecting.1 ≡ succeed rs
      → (f : Faults) → compact reads f now_ms s ≡ compact_with f collected_store rs
  unfolding compact
  compact_collected rs opened collected f = ground (arith, opened, collected)

module _ (f : Faults) (s : Store) (rs : List Record) where
  abbrev replacing : Storage × Result CompactionState
  replacing = compact_storage f s.storage (sort by_key rs)

  replaced_ok :
      (state : CompactionState)
      → replacing.1 ≡ succeed state
      → compact_with f s rs ≡ (
        record s {
          storage = replacing.0;
          index = state.index;
          cache = LruCache.clear s.cache;
          compactions = bump s.compactions;
        },
        succeed (record {
          live_keys = length state.index;
          old_file_bytes = state.old_file_bytes;
          new_file_bytes = state.new_file_bytes;
        }),
      )
  unfolding compact_with
  replaced_ok state done = rw (done, compact_with) refl

  replaced_failed :
      (st : Status)
      → replacing.1 ≡ fail st
      → compact_with f s rs ≡ (record s { storage = replacing.0 }, fail st)
  unfolding compact_with
  replaced_failed st failed = rw (failed, compact_with) refl

module _ (now_ms later : ℕ) (log : List Record) (after : now_ms ≤ later)
    (word : later < 2 ^ 63) where
  -- From the collected records on.
  compact_with-Compacted :
      (f : Faults) (s : Store) (rs : List Record)
      → Represents now_ms s log
      → Collected log s.index rs
      → Compacted now_ms later log (compact_with f s rs)
  compact_with-Compacted f s rs h c =
      let lives = sort by_key rs in
      let entries = sort-AreEntries rs c.entries in
      let size : log_size lives ≤ log_size log =
        omega (arith, log_size-sort rs, log_size_lives log rs c.entries c.origins) in
      let storable = All-sort IsStorable rs (IsStorable-lives log rs h.storable c.origins) in
      let said : Replaces later log lives = record {
        same = λ k.
            live-slot_from later 0 k lives none entries
            ∙ (rw (lookup-sort k rs c.entries)
                (Collected-view now_ms later s log rs k h c after word));
        size = size;
      } in
      elim (compact-Replaced f (encode_all log) lives s.storage h.file storable
        (omega (arith, h.small))) [
          | inl (state, done, index, before, behind, file) ↦ rw (replaced_ok f s rs state done) (
              inl (
                lives,
                _,
                refl,
                compacted-Represents now_ms _ lives s.cache file index refl storable entries
                    (omega (arith, h.small)),
                said,
                before ∙ length-encode_all log,
                behind,
              ))
          | inr (st, failed, inl file) ↦ rw (replaced_failed f s rs st failed) (
              inr
                (st, refl, inl (refreshed now_ms s log h _ file refl h.cache_valid h.cache_agrees)))
          | inr (st, failed, inr file) ↦
              rw (replaced_failed f s rs st failed) (inr (st, refl, inr (lives, file, said)))
        ]

  module _ (reads : Bytes → Faults) (f : Faults) (s : Store) (h : Represents now_ms s log) where
    live_slots : AreSlots log (swept_store now_ms s).index
    live_slots =
        let stands = swept_store-Represents now_ms s log h in
        found-AreSlots log _ stands.index_map (found_slot now_ms (swept_store now_ms s) log stands)

    collected-Represents : Represents now_ms (collected_store reads now_ms s) log
    collected-Represents =
        let stands = swept_store-Represents now_ms s log h in
        refreshed now_ms (swept_store now_ms s) log stands _
          (data-collect_live reads log h.storable h.small s.storage _ h.file) refl
          stands.cache_valid stands.cache_agrees

    -- On an open store that stands for a log, whatever calls of the operating system fail in a
    -- `compact`: either it succeeds, and the store stands for a log that takes no more bytes and
    -- gives every key, at any given time from now on below 2 ^ 63, the value that the log gave it, and the
    -- summary has the sizes of the two logs; or it returns an error, and either the store stands for the log as
    -- before, or the data file holds such a smaller log.
    pub compact-Compacted : s.opened ≡ true → Compacted now_ms later log (compact reads f now_ms s)
    compact-Compacted opened = elim (Result-cases (collecting reads now_ms s).1) [
      | inl (rs, collected) ↦ rw (compact_collected reads now_ms s rs opened collected f) (
          compact_with-Compacted f (collected_store reads now_ms s) rs collected-Represents (
            collect_live-Collected reads log h.storable h.small s.storage _ rs h.file
              (swept_store-Represents now_ms s log h).index_map live_slots collected))
      | inr (st, failed) ↦
          rw (compact_failed reads now_ms s st opened failed f)
            (inr (st, refl, inl collected-Represents))
    ]
