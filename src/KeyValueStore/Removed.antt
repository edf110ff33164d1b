-- ===== src/KeyValueStore/Removed.antt =====
-- `get` behind a `remove`.
use mini_kvstore.Prelude.{
  ℕ, ◌+◌, ◌^◌, ◌≤◌, ◌<◌, ◌≡◌, refl, ◌∙◌, true, none, some, Bool-cases, Option-cases, inl, inr, List,
  [], ◌∷◌, ◌++◌, Bytes, bytes_eq, bytes_eq_iff, arith, if◌then◌else◌,
}
use mini_kvstore.Status.{is_ok}
use mini_kvstore.Record.{Record, is_expired}
use mini_kvstore.AppendOnlyStore.{Faults, IsHealthy, record_size}
use mini_kvstore.AppendOnlyStore.Recovery.Log.{log_size}
use mini_kvstore.KeyValueStore.{Store, remove, get, validate_key}
use mini_kvstore.KeyValueStore.Slots.{slot_at, slot_at-append}
use mini_kvstore.KeyValueStore.Represents.{Represents, Represents-later, is_expired_mono, view}
use mini_kvstore.KeyValueStore.Reads.{Answers}
use mini_kvstore.KeyValueStore.Get.{get-Answers}
use mini_kvstore.KeyValueStore.Removing.{delete_record, remove-Removal, remove_healthy}

-- A key that has expired gets no value back as time passes.
pub view_later :
    (now_ms later : ℕ) (log : List Record) (k : Bytes)
    → now_ms ≤ later
    → later < 2 ^ 63
    → view now_ms log k ≡ none
    → view later log k ≡ none
view_later now_ms later log k after word gone = elim (Option-cases (slot_at k log)) [
  | inl nothing ↦ rw nothing refl
  | inr (slot, at) ↦ elim (Bool-cases (is_expired slot.metadata.expires_at_ms now_ms)) [
    | inl expired ↦
        rw (at, is_expired_mono slot.metadata.expires_at_ms now_ms later after word expired) refl
    | inr fresh ↦
        let there : view now_ms log k ≡ some slot.value = rw (at, fresh) refl in
        absurd (ground (arith, there))
  ]
]

view_removed :
    (later : ℕ) (log : List Record) (key k : Bytes)
    → view later (log ++ delete_record key ∷ []) k
      ≡ (if bytes_eq key k then none else view later log k)
view_removed later log key k = elim (Bool-cases (bytes_eq key k)) [
  | inl same ↦ rw (slot_at-append k log (delete_record key), same) refl
  | inr other ↦ rw (slot_at-append k log (delete_record key), other) refl
]

-- On an open store that stands for a log, where no call of the operating system fails, there is
-- room on the disk, the log with a delete record is shorter than 2 ^ 64 bytes, and the key is
-- valid: behind a `remove`, a `get` of any valid key at any later time below 2 ^ 63 returns
-- NOT_FOUND for the key that was removed, whether the log gave it a value or not, and for any
-- other key what the log before the `remove` gives it then.
pub get-remove :
    (now_ms later : ℕ) (s : Store) (log : List Record)
    → Represents now_ms s log
    → (key : Bytes) → s.opened ≡ true
    → is_ok (validate_key key) ≡ true
    → (f g : Faults) → IsHealthy f
    → IsHealthy g
    → record_size (delete_record key) ≤ f.room
    → log_size log + record_size (delete_record key) < 2 ^ 64
    → now_ms ≤ later
    → later < 2 ^ 63
    → (k : Bytes) → is_ok (validate_key k) ≡ true
    → Answers
        (if bytes_eq key k then none else view later log k)
        (get g later (remove f now_ms s key).0 k).1
get-remove now_ms later s log h key opened valid f g healthy healthy_read room small after word k
      valid_k =
    let removal = remove-Removal now_ms s log h key opened valid f small in
    let answers =
      λ (log' : List Record) (o : (remove f now_ms s key).0.opened ≡ s.opened)
          (r : Represents now_ms (remove f now_ms s key).0 log').
        get-Answers later g log' (remove f now_ms s key).0 (Represents-later later after word r) k
          (o ∙ opened) valid_k healthy_read in
    elim (Option-cases (view now_ms log key)) [
      | inl gone ↦
          let (code, o, r) = rw gone at removal in
          let same : view later log k ≡ (if bytes_eq key k then none else view later log k) =
            unseen k (view_later now_ms later log key after word gone) in
          rw (← same) (answers log o r)
      | inr (value, there) ↦ elim (rw there at removal) [
        | inl (_, o, r) ↦
            rw (← view_removed later log key k) (answers (log ++ delete_record key ∷ []) o r)
        | inr (wrong, _, _, _, _, _) ↦ absurd (
            ground
              (arith, remove_healthy now_ms s log h key opened valid f value there healthy room))
      ]
    ]
  where
    unseen :
        (k : Bytes)
        → view later log key ≡ none
        → view later log k ≡ (if bytes_eq key k then none else view later log k)
    unseen k gone = elim (Bool-cases (bytes_eq key k)) [
      | inl same ↦ rw (same, ← (bytes_eq_iff key k).0 same) gone
      | inr other ↦ rw other refl
    ]
