-- ===== src/KeyValueStore/Get.antt =====
-- `get` and `exists` against the view of the log.
use mini_kvstore.Prelude.{
  ℕ, ◌≡◌, ◌≢◌, refl, sym, ◌∙◌, ap, true, false, none, some, Option-cases, Bool-cases, inl, inr,
  List, Bytes, bytes_key, arith, ◌⊎◌, text,
}
use mini_kvstore.UnorderedMap.{find}
use mini_kvstore.Status.{Status, not_found, invalid_argument, closed_status, is_ok}
use mini_kvstore.Result.{fail, Result-cases}
use mini_kvstore.Record.{Record, RecordMetadata, is_expired}
use mini_kvstore.AppendOnlyStore.{Faults, IsHealthy}
use mini_kvstore.AppendOnlyStore.Reading.{read_value_code}
use mini_kvstore.KeyValueStore.{Store, get_live, get_locked, get, validate_key, bump}
use mini_kvstore.KeyValueStore.Slots.{Slot, slot_at}
use mini_kvstore.KeyValueStore.Represents.{Represents, view}
use mini_kvstore.KeyValueStore.Reads.{
  Answers, NeverLies, found_slot, missing_view, refreshed, erase_if_expired-Represents,
  get_live-Represents, get_live_sound, get_live_healthy,
}

module _ (now_ms : ℕ) (f : Faults) (log : List Record) where
  get_live_code :
      (s : Store) (key : Bytes) (metadata : RecordMetadata) (st : Status)
      → (get_live f s key metadata).1 ≡ fail st
      → st.code ≢ not_found
  unfolding get_live
  get_live_code s key metadata st h = λ e. ground (arith, read_value_code f s.storage metadata st)

  module _ (s : Store) (h : Represents now_ms s log) (key : Bytes) where
    -- `get_locked` at a key with a live entry, and at any other.
    live_case :
        (metadata : RecordMetadata)
        → find key s.index ≡ some metadata
        → is_expired metadata.expires_at_ms now_ms ≡ false
        → (slot : Slot) × (slot_at key log ≡ some slot)
          × (view now_ms log key ≡ some slot.value)
          × (get_locked f now_ms s key ≡ get_live f s key slot.metadata)
    unfolding get_locked
    live_case metadata found fresh =
        let (slot, at, same) = found_slot now_ms s log h key metadata found in
        (slot, at, rw (at, ← same, fresh) refl, rw (found, get_locked, fresh, same))

    get_locked-Represents : Represents now_ms (get_locked f now_ms s key).0 log
    unfolding get_locked
    get_locked-Represents = elim (Option-cases (find key s.index)) [
      | inl missing ↦ rw (missing, get_locked) h
      | inr (metadata, found) ↦ elim (Bool-cases (is_expired metadata.expires_at_ms now_ms)) [
        | inl expired ↦
            rw (found, get_locked, expired) (erase_if_expired-Represents now_ms s log h key)
        | inr fresh ↦
            let (slot, at, _, same) = live_case metadata found fresh in
            rw same (get_live-Represents now_ms s log h f key slot at)
      ]
    ]

    -- The view of an expired or missing key.
    silent :
        (metadata : RecordMetadata)
        → find key s.index ≡ some metadata
        → is_expired metadata.expires_at_ms now_ms ≡ true
        → view now_ms log key ≡ none
    silent metadata found expired =
        let (slot, at, same) = found_slot now_ms s log h key metadata found in
        rw (at, ← same, expired)

    get_locked_lem : NeverLies (view now_ms log key) (get_locked f now_ms s key).1
    unfolding get_locked
    get_locked_lem = elim (Option-cases (find key s.index)) [
      | inl missing ↦ rw (missing, get_locked) (inl (missing_view now_ms s log h key missing))
      | inr (metadata, found) ↦ elim (Bool-cases (is_expired metadata.expires_at_ms now_ms)) [
        | inl expired ↦ rw (found, get_locked, expired) (inl (silent metadata found expired))
        | inr fresh ↦
            let (slot, at, said, same) = live_case metadata found fresh in
            elim (Result-cases (get_live f s key slot.metadata).1) [
              | inl (value, read) ↦
                  rw (same, read)
                    (said ∙ ap some (sym (get_live_sound now_ms s log h f key slot at value read)))
              | inr (st, failed) ↦
                  rw (same, failed) (inr (get_live_code s key slot.metadata st failed))
            ]
      ]
    ]

    get_locked_healthy : IsHealthy f → Answers (view now_ms log key) (get_locked f now_ms s key).1
    unfolding get_locked
    get_locked_healthy healthy = elim (Option-cases (find key s.index)) [
      | inl missing ↦ rw (missing, get_locked, missing_view now_ms s log h key missing) refl
      | inr (metadata, found) ↦ elim (Bool-cases (is_expired metadata.expires_at_ms now_ms)) [
        | inl expired ↦ rw (found, get_locked, expired, silent metadata found expired) refl
        | inr fresh ↦
            let (slot, at, said, same) = live_case metadata found fresh in
            rw (same, said) (get_live_healthy now_ms s log h f key slot at healthy)
      ]
    ]

-- `get` and `exists` as the client calls them.
module _ (now_ms : ℕ) (f : Faults) (log : List Record) (s : Store) (h : Represents now_ms s log)
    (key : Bytes) where
  counted : Store
  counted = record s { get_operations = bump s.get_operations }

  counted-Represents : Represents now_ms counted log
  unfolding counted
  counted-Represents = refreshed now_ms s log h _ h.file refl h.cache_valid h.cache_agrees

  get_opened :
      s.opened ≡ true
      → is_ok (validate_key key) ≡ true
      → get f now_ms s key ≡ get_locked f now_ms counted key
  unfolding get counted
  get_opened opened valid = ground arith

  get_cases :
      (get f now_ms s key ≡ (s, fail (closed_status (text "store is not open"))))
      ⊎ (get f now_ms s key ≡ (s, fail (validate_key key)))
        × ((validate_key key).code ≡ invalid_argument)
      ⊎ (get f now_ms s key ≡ get_locked f now_ms counted key)
  unfolding get counted validate_key
  get_cases = ground arith

  -- On a store that stands for a log, whatever calls of the operating system fail: `get` leaves
  -- the store standing for the same log.
  pub get-Represents : Represents now_ms (get f now_ms s key).0 log
  get-Represents = elim get_cases [
    | inl closed ↦ rw closed h
    | inr (inl (wrong, _)) ↦ rw wrong h
    | inr (inr same) ↦ rw same (get_locked-Represents now_ms f log counted counted-Represents key)
  ]

  -- On a store that stands for a log, whatever calls of the operating system fail: a value that
  -- `get` returns is the one that the log gives the key now, and NOT_FOUND is returned only for a
  -- key to which the log gives no value now.
  pub get-NeverLies : NeverLies (view now_ms log key) (get f now_ms s key).1
  get-NeverLies = elim get_cases [
    | inl closed ↦ rw closed (inr (λ e. ground arith))
    | inr (inl (wrong, code)) ↦ rw wrong (inr (λ e. ground (arith, code)))
    | inr (inr same) ↦ rw same (get_locked_lem now_ms f log counted counted-Represents key)
  ]

  -- On an open store that stands for a log, where the key is valid and no call of the operating
  -- system fails: `get` returns the value that the log gives the key now, or NOT_FOUND if it
  -- gives none.
  pub get-Answers :
      s.opened ≡ true
      → is_ok (validate_key key) ≡ true
      → IsHealthy f
      → Answers (view now_ms log key) (get f now_ms s key).1
  get-Answers opened valid healthy =
      rw (get_opened opened valid)
        (get_locked_healthy now_ms f log counted counted-Represents key healthy)
