-- ===== src/KeyValueStore/Opened.antt =====
-- `opened_` behind the methods other than `open` and `close`.
use mini_kvstore.Prelude.{ℕ, ◌≡◌, true, ◌∙◌, ap, Option-cases, Bytes, bytes_key, inl, inr, arith}
use mini_kvstore.UnorderedMap.{find}
use mini_kvstore.Record.{RecordMetadata}
use mini_kvstore.AppendOnlyStore.{Faults}
use mini_kvstore.KeyValueStore.{Store, erase_if_expired, get_live, get_locked, get, exists, bump}
use mini_kvstore.KeyValueStore.Exists.{exists_store}
use mini_kvstore.KeyValueStore.Sweep.{cleanup_expired, keys}

module _ (f : Faults) (now_ms : ℕ) (s : Store) (key : Bytes) where
  opened-erase_if_expired : (erase_if_expired now_ms s key).0.opened ≡ s.opened
  unfolding erase_if_expired
  opened-erase_if_expired = ground arith

  opened-get_live : (metadata : RecordMetadata) → (get_live f s key metadata).0.opened ≡ s.opened
  unfolding get_live
  opened-get_live metadata = ground arith

  opened-get_locked : (get_locked f now_ms s key).0.opened ≡ s.opened
  unfolding get_locked
  opened-get_locked = elim (Option-cases (find key s.index)) [
    | inl missing ↦ ground arith
    | inr (metadata, found) ↦ ground (arith, opened-erase_if_expired, opened-get_live metadata)
  ]

pub opened-cleanup_expired :
    (now_ms : ℕ) (s : Store) → (cleanup_expired now_ms s).0.opened ≡ s.opened
unfolding cleanup_expired
opened-cleanup_expired now_ms s = ground arith

module _ (f : Faults) (now_ms : ℕ) (s : Store) (key : Bytes) where
  pub opened-get : (get f now_ms s key).0.opened ≡ s.opened
  unfolding get
  opened-get =
      ground (
        arith,
        opened-get_locked f now_ms (record s { get_operations = bump s.get_operations }) key,
      )

  pub opened-exists : (exists f now_ms s key).0.opened ≡ s.opened
  opened-exists = ap (λ (t : Store). t.opened) (exists_store now_ms f s key) ∙ opened-get

pub opened-keys :
    (now_ms : ℕ) (s : Store) (prefix : Bytes)
    → s.opened ≡ true
    → (keys now_ms s prefix).0.opened ≡ s.opened
unfolding keys
opened-keys now_ms s prefix opened = ground (arith, opened-cleanup_expired now_ms s, opened)
