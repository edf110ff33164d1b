-- ===== src/KeyValueStore/Crash.antt =====
-- A `set`, and the `open` of the next process on the data file that it left.
use mini_kvstore.Prelude.{
  ℕ, ◌+◌, ◌^◌, ◌≤◌, ◌<◌, ◌≡◌, sym, ap, ◌∙◌, false, Option, none, some, inl, inr, ◌⊎◌, List, [], ◌∷◌,
  ◌++◌, All, Bytes, arith, take, take_of_length-le, append-nil,
}
use mini_kvstore.Status.{is_ok}
use mini_kvstore.Record.{Record}
use mini_kvstore.AppendOnlyStore.{Faults, IsHealthy, encode, record_size}
use mini_kvstore.AppendOnlyStore.Header.RoundTrip.{IsStorable}
use mini_kvstore.AppendOnlyStore.Appending.{length-encode}
use mini_kvstore.AppendOnlyStore.Recovery.Log.{encode_all, log_size}
use mini_kvstore.KeyValueStore.{Store, set, open_store, expiry}
use mini_kvstore.KeyValueStore.Slots.{encode_all-append, log_size-append}
use mini_kvstore.KeyValueStore.Represents.{Represents}
use mini_kvstore.KeyValueStore.Writes.{All-append, set_record}
use mini_kvstore.KeyValueStore.Setting.{IsAccepted, accepted-IsStorable, set-Written}
use mini_kvstore.KeyValueStore.Opening.{IsOpenable, Restored, open_store-Restored}

module _ (later : ℕ) (t : Store) (openable : IsOpenable t) (f g : Faults)
    (healthy_open : IsHealthy f) (healthy : IsHealthy g) (log : List Record) (r : Record)
    (hs : All IsStorable log) (h : IsStorable r)
    (small : log_size log + record_size r < 2 ^ 64) where
  whole :
      t.storage.data_file ≡ some (encode_all log ++ encode r)
      → Restored later (log ++ r ∷ []) 0 (open_store f g later none t)
  whole file =
      open_store-Restored later t (log ++ r ∷ []) r 0 f g healthy_open healthy openable
        (All-append log r hs h) h (omega arith) (rw log_size-append (omega arith))
        (unfold take in rw (file, encode_all-append) (ap some (sym (append-nil _))))

  part :
      (n : ℕ)
      → n ≤ record_size r
      → t.storage.data_file ≡ some (encode_all log ++ take n (encode r))
      → Restored later (log ++ r ∷ []) 0 (open_store f g later none t)
        ⊎ Restored later log n (open_store f g later none t)
  part n le file = elim (split n (record_size r) le) [
    | inl same ↦ inl (
        whole (
          file
          ∙ ap (λ (b : Bytes). some (encode_all log ++ b))
              (take_of_length-le n (encode r) (omega (arith, length-encode r, same)))))
    | inr less ↦ inr (
        open_store-Restored later t log r n f g healthy_open healthy openable hs h less
          (omega arith) file)
  ]
    where
      split : (m k : ℕ) → m ≤ k → (m ≡ k) ⊎ (m < k)
      split m k le = ground arith

-- A `set` is atomic across a crash. On a store that stands for a log, where the log with the
-- record is shorter than 2 ^ 64 bytes and the arguments are accepted: whatever calls of the
-- operating system fail in the `set`, and wherever its write of the record stops, the next `open`
-- of the data file, in which no call fails, succeeds and stands for the log with the record
-- behind it, or for the log without it, and the second only if the `set` returned an error.
pub crash_atomic :
    (now_ms later : ℕ) (s t : Store) (log : List Record)
    → Represents now_ms s log
    → (key value : Bytes) (ttl : Option ℕ) → IsAccepted s key value ttl
    → log_size log + record_size (set_record key value (expiry now_ms ttl)) < 2 ^ 64
    → (d f g : Faults) → IsHealthy f
    → IsHealthy g
    → IsOpenable t
    → t.storage.data_file ≡ (set d now_ms s key value ttl).0.storage.data_file
    → Restored later
        (log ++ set_record key value (expiry now_ms ttl) ∷ [])
        0
        (open_store f g later none t)
      ⊎ ((is_ok (set d now_ms s key value ttl).1 ≡ false)
          × (n : ℕ) × Restored later log n (open_store f g later none t))
crash_atomic now_ms later s t log h key value ttl accepted small d f g healthy_open healthy openable
      file =
    let storable = accepted-IsStorable now_ms s key value ttl accepted in
    let r = set_record key value (expiry now_ms ttl) in
    elim (set-Written now_ms s log h key value ttl accepted d small) [
      | inl (_, _, stands) ↦ inl (
          whole later t openable f g healthy_open healthy log r h.storable storable small
            (file ∙ stands.file ∙ ap some (encode_all-append log r)))
      | inr (wrong, n, storage, le, same, cut) ↦
          elim (part later t openable f g healthy_open healthy log r h.storable storable small n le
            (file ∙ ap (λ (o : Store). o.storage.data_file) same ∙ cut)) [
              | inl kept ↦ inl kept
              | inr lost ↦ inr (wrong, n, lost)
            ]
    ]
