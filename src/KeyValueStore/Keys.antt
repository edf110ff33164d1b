-- ===== src/KeyValueStore/Keys.antt =====
-- `keys` against the log that the store stands for.
use mini_kvstore.Prelude.{
  ℕ, ◌≡◌, refl, ◌∙◌, true, false, ◌&&◌, Bool-cases, inl, inr, List, [], ◌∷◌, Bytes, bytes_key,
  bytes_eq, bytes_eq_iff, sort, arith,
}
use mini_kvstore.UnorderedMap.{find, IsMap, find_absent}
use mini_kvstore.Result.{Result, succeed}
use mini_kvstore.Record.{Record}
use mini_kvstore.AppendOnlyStore.Recovery.{Index}
use mini_kvstore.KeyValueStore.{Store}
use mini_kvstore.KeyValueStore.Represents.{Represents, view}
use mini_kvstore.KeyValueStore.Sweep.{keys, matching_keys, has_prefix, cleanup_expired}
use mini_kvstore.KeyValueStore.Sweeping.{is_some, cleanup_expired_lem}
use mini_kvstore.KeyValueStore.Sorting.{
  contains, IsAscending, IsDistinct, contains-sort, sort-IsAscending,
}

-- The collected keys are those of the index with the prefix.
contains-matching_keys :
    (prefix k : Bytes) (index : Index)
    → contains k (matching_keys prefix index) ≡ (has_prefix prefix k && is_some (find k index))
unfolding matching_keys find
contains-matching_keys prefix k [] = ground arith
contains-matching_keys prefix k ((key, metadata) ∷ rest) =
    let again = contains-matching_keys prefix k rest in
    elim (Bool-cases (bytes_eq key k)) [
      | inl same ↦
          let e : key ≡ k = (bytes_eq_iff key k).0 same in
          elim (Bool-cases (has_prefix prefix key)) [
            | inl begins ↦ rw (begins, same, ← e, begins) refl
            | inr differs ↦ rw (differs, same, again, ← e, differs) refl
          ]
      | inr other ↦ elim (Bool-cases (has_prefix prefix key)) [
        | inl begins ↦ rw (begins, other) again
        | inr differs ↦ rw (differs, other) again
      ]
    ]

matching_keys-IsDistinct :
    (prefix : Bytes) (index : Index) → IsMap index → IsDistinct (matching_keys prefix index)
unfolding matching_keys
matching_keys-IsDistinct prefix [] m = tt
matching_keys-IsDistinct prefix ((key, metadata) ∷ rest) m =
    elim (Bool-cases (has_prefix prefix key)) [
      | inl begins ↦
          let absent : contains key (matching_keys prefix rest) ≡ false =
            contains-matching_keys prefix key rest ∙ (rw (begins, find_absent key rest m.0) refl) in
          rw begins (absent, matching_keys-IsDistinct prefix rest m.1)
      | inr differs ↦ rw differs (matching_keys-IsDistinct prefix rest m.1)
    ]

keys_opened :
    (now_ms : ℕ) (s : Store) (prefix : Bytes)
    → s.opened ≡ true
    → keys now_ms s prefix ≡ (
      (cleanup_expired now_ms s).0,
      succeed (sort (λ (x : Bytes). x) (matching_keys prefix (cleanup_expired now_ms s).0.index)),
    )
unfolding keys
keys_opened now_ms s prefix opened = ground arith

-- What `keys` promises: the keys with the prefix to which the log gives a value, each once, in order.
pub record Listed (now_ms : ℕ) (log : List Record) (prefix : Bytes)
    (outcome : Store × Result (List Bytes)) : Type 0 where
  pub listed : List Bytes
  pub returned : outcome.1 ≡ succeed listed
  pub ascending : IsAscending listed
  pub exact : (k : Bytes) → contains k listed ≡ (has_prefix prefix k && is_some (view now_ms log k))
  pub stands : Represents now_ms outcome.0 log

-- `keys` on an open store that stands for a log returns, in ascending order and each once, the
-- keys that begin with the prefix and to which the log gives a value now, and leaves the store
-- standing for the same log.
pub keys_lem :
    (now_ms : ℕ) (s : Store) (log : List Record)
    → Represents now_ms s log
    → s.opened ≡ true
    → (prefix : Bytes) → Listed now_ms log prefix (keys now_ms s prefix)
keys_lem now_ms s log h opened prefix =
    let (stands, entries) = cleanup_expired_lem now_ms s log h opened in
    let index = (cleanup_expired now_ms s).0.index in
    rw (keys_opened now_ms s prefix opened) (record {
      listed = sort (λ (x : Bytes). x) (matching_keys prefix index);
      returned = refl;
      ascending = sort-IsAscending _ (matching_keys-IsDistinct prefix index stands.index_map);
      exact = λ k.
          contains-sort k (matching_keys prefix index)
          ∙ contains-matching_keys prefix k index
          ∙ rw (entries k) refl;
      stands = stands;
    })
