-- ===== src/KeyValueStore/Exists.antt =====
-- `exists` against the log that the store stands for.
use mini_kvstore.Prelude.{
  ℕ, ◌≡◌, refl, Bool, true, false, some, Option-cases, Bool-cases, inl, inr, List, Bytes, arith,
  if◌then◌else◌,
}
use mini_kvstore.Status.{Status, not_found, is_ok}
use mini_kvstore.Result.{succeed, fail, Result-cases}
use mini_kvstore.Record.{Record}
use mini_kvstore.AppendOnlyStore.{Faults, IsHealthy}
use mini_kvstore.KeyValueStore.{Store, get, exists, validate_key, is_not_found}
use mini_kvstore.KeyValueStore.Represents.{Represents, view}
use mini_kvstore.KeyValueStore.Get.{get-NeverLies, get-Answers, get-Represents}
use mini_kvstore.KeyValueStore.Sweeping.{is_some}

module _ (now_ms : ℕ) (f : Faults) (s : Store) (key : Bytes) where
  exists_found :
      (value : Bytes)
      → (get f now_ms s key).1 ≡ succeed value
      → (exists f now_ms s key).1 ≡ succeed true
  unfolding exists
  exists_found value e = ground arith

  exists_missing :
      (st : Status)
      → (get f now_ms s key).1 ≡ fail st
      → (exists f now_ms s key).1 ≡ (if is_not_found st then succeed false else fail st)
  unfolding exists
  exists_missing st e = ground arith

  pub exists_store : (exists f now_ms s key).0 ≡ (get f now_ms s key).0
  unfolding exists
  exists_store = refl

-- A status with the code NOT_FOUND, and one with another.
not_found_code : (st : Status) → is_not_found st ≡ true → st.code ≡ not_found
not_found_code st h = ground arith

pub code_not_found : (st : Status) → st.code ≡ not_found → is_not_found st ≡ true
code_not_found st h = ground arith

module _ (now_ms : ℕ) (f : Faults) (log : List Record) (s : Store) (h : Represents now_ms s log)
    (key : Bytes) where
  -- On a store that stands for a log, whatever calls of the operating system fail: where `exists`
  -- returns no error, it says whether the log gives the key a value now.
  pub exists_sound :
      (said : Bool)
      → (exists f now_ms s key).1 ≡ succeed said
      → said ≡ is_some (view now_ms log key)
  exists_sound said e =
      let truth = get-NeverLies now_ms f log s h key in
      elim (Result-cases (get f now_ms s key).1) [
        | inl (value, found) ↦
            let there : view now_ms log key ≡ some value = rw found at truth in
            let answer = exists_found now_ms f s key value found in
            rw there (ground (arith, answer, e))
        | inr (st, failed) ↦
            let answer = exists_missing now_ms f s key st failed in
            elim (rw failed at truth) [
              | inl gone ↦ rw gone (only_missing st answer)
              | inr other ↦ absurd (other (only_code st answer))
            ]
      ]
    where
      only_missing :
          (st : Status)
          → (exists f now_ms s key).1 ≡ (if is_not_found st then succeed false else fail st)
          → said ≡ false
      only_missing st answer = ground (arith, answer, e)

      only_code :
          (st : Status)
          → (exists f now_ms s key).1 ≡ (if is_not_found st then succeed false else fail st)
          → st.code ≡ not_found
      only_code st answer = elim (Bool-cases (is_not_found st)) [
        | inl missing ↦ not_found_code st missing
        | inr other ↦ absurd (ground (arith, answer, e))
      ]

  -- On an open store that stands for a log, where the key is valid and no call of the operating
  -- system fails: `exists` says whether the log gives the key a value now, and leaves the store
  -- standing for the same log.
  pub exists_lem :
      s.opened ≡ true
      → is_ok (validate_key key) ≡ true
      → IsHealthy f
      → Represents now_ms (exists f now_ms s key).0 log
        × ((exists f now_ms s key).1 ≡ succeed (is_some (view now_ms log key)))
  exists_lem opened valid healthy =
      let answers = get-Answers now_ms f log s h key opened valid healthy in
      (
        rw (exists_store now_ms f s key) (get-Represents now_ms f log s h key),
        elim (Option-cases (view now_ms log key)) [
          | inl gone ↦ elim (Result-cases (get f now_ms s key).1) [
            | inl (value, found) ↦ absurd (rw (gone, found) at answers)
            | inr (st, failed) ↦
                let code : st.code ≡ not_found = rw (gone, failed) at answers in
                rw (gone, exists_missing now_ms f s key st failed, code_not_found st code) refl
          ]
          | inr (value, there) ↦
              let found : (get f now_ms s key).1 ≡ succeed value = rw there at answers in
              rw there (exists_found now_ms f s key value found)
        ],
      )
