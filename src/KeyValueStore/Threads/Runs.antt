-- ===== src/KeyValueStore/Threads/Runs.antt =====
-- Sequences of steps of the threads, and the invariant along them.
use mini_kvstore.Prelude.{
  ℕ, ◌+◌, ◌^◌, ◌≤◌, ◌<◌, ◌≡◌, refl, Bool, true, false, Bytes, text, bytes_key, List, [], ◌∷◌, ◌++◌,
  none, some, Bool-cases, inl, inr, arith,
}
use mini_kvstore.UnorderedMap.{find}
use mini_kvstore.Status.{Status, success, is_ok, closed_status, not_found_status}
use mini_kvstore.Record.{Record, RecordMetadata, is_expired}
use mini_kvstore.AppendOnlyStore.{Faults, record_size}
use mini_kvstore.AppendOnlyStore.Recovery.Log.{log_size}
use mini_kvstore.KeyValueStore.{Store, validate_key, expiry, set_locked, remove_found, drop_key}
use mini_kvstore.KeyValueStore.Slots.{slot_at}
use mini_kvstore.KeyValueStore.Represents.{Represents, Represents-later, slot_value, view}
use mini_kvstore.KeyValueStore.Reads.{found_slot, missing_view, refreshed, drop_key-Represents}
use mini_kvstore.KeyValueStore.Sweeping.{swept_store-Represents}
use mini_kvstore.KeyValueStore.Writes.{Written, set_record, set_locked_lem}
use mini_kvstore.KeyValueStore.Setting.{accepted-IsStorable}
use mini_kvstore.KeyValueStore.Removing.{delete_record, removed-Written}
use mini_kvstore.KeyValueStore.Threads.{
  Place, idle, found, missed, loaded, outdated, setting, closing, joining, System, move, IsFree,
  Label, at_time, counted, Step, looks_missing, looks_expired, looks_live, hits, misses, reads,
  fails, fills, erases, prepares, sets, finds_shut, removes_missing, removes, removes_expired,
  closes, closes_again, requests, joins, cleaner_looks, cleaner_wakes, cleaner_sweeps,
  cleaner_tests,
}
use mini_kvstore.KeyValueStore.Threads.Invariant.{
  IsGood, Sound, IsRight, IsGood-later, IsGood-free, moved-IsGood, hit_right, looked_up-Represents,
  filled-Represents, read-Represents, read_right, erased-Represents,
}

-- A step that moves a thread and leaves the clock and the history.
thread-Sound :
    (y : System) (t : ℕ) (place : Place) (s : Store)
    → Sound y
    → Represents y.clock s y.history
    → IsGood y.clock y.history place
    → Sound (move y t place s)
thread-Sound y t place s h stands good = record {
  stands = stands;
  word = h.word;
  good = moved-IsGood y.clock y.history y.places t place h.good good;
}

-- Time passes.
later-Sound :
    (y : System) (now_ms : ℕ)
    → Sound y
    → y.clock ≤ now_ms
    → now_ms < 2 ^ 63
    → Sound (at_time y now_ms)
later-Sound y now_ms h le word = record {
  stands = Represents-later now_ms le word h.stands;
  word = word;
  good = λ t. IsGood-later y.clock now_ms y.history (y.places t) le (h.good t);
}

-- A write behind which the store stands for the history with one more record.
Written-Represents :
    (now_ms : ℕ) (s : Store) (log : List Record) (r : Record) (outcome : Store × Status)
    → Written now_ms s log r outcome
    → outcome.1 ≡ success
    → Represents now_ms outcome.0 (log ++ r ∷ [])
Written-Represents now_ms s log r outcome (inl (_, _, stands)) ok = stands
Written-Represents now_ms s log r outcome (inr (wrong, _, _, _, _, _)) ok =
    absurd (ground (arith, wrong, ok))

dropped :
    (f : Faults) (now_ms : ℕ) (s : Store) (key : Bytes) (metadata : RecordMetadata)
    → is_expired metadata.expires_at_ms now_ms ≡ true
    → remove_found f now_ms s key metadata
      ≡ (drop_key s key, not_found_status (text "key has expired"))
unfolding remove_found
dropped f now_ms s key metadata expired = rw expired refl

set_shut :
    (f : Faults) (s : Store) (key value : Bytes) (expires_at_ms : ℕ)
    → s.opened ≡ false
    → set_locked f s key value expires_at_ms
      ≡ (s, closed_status (text "store was closed during SET"))
unfolding set_locked
set_shut f s key value expires_at_ms shut = ground (arith, shut)

counted-Represents :
    (clock : ℕ) (s : Store) (log : List Record)
    → Represents clock s log
    → Represents clock (counted s) log
counted-Represents clock s log h =
    refreshed clock s log h _ h.file refl h.cache_valid h.cache_agrees

-- The place of a thread, with what it knows there.
at_place :
    (y : System) (t : ℕ) (place : Place)
    → Sound y
    → y.places t ≡ place
    → IsGood y.clock y.history place
at_place y t place h same = rw same at (h.good t)

module _ (y : System) (h : Sound y) (t now_ms : ℕ) (key : Bytes) (le : y.clock ≤ now_ms)
    (word : now_ms < 2 ^ 63) where
  -- A look at the index at a new time.
  abbrev looked : System
  looked = at_time y now_ms

  looked-Sound : Sound looked
  looked-Sound = later-Sound y now_ms h le word

  look-Sound :
      (place : Place)
      → IsGood now_ms y.history place
      → Sound (move looked t place (counted y.store))
  look-Sound place good =
      thread-Sound looked t place (counted y.store) looked-Sound
        (counted-Represents now_ms y.store y.history looked-Sound.stands) good

  look_denied :
      (metadata : RecordMetadata)
      → find key y.store.index ≡ some metadata
      → is_expired metadata.expires_at_ms now_ms ≡ true
      → view now_ms y.history key ≡ none
  look_denied metadata there expired =
      let (slot, at, same) =
        found_slot now_ms y.store y.history looked-Sound.stands key metadata there in
      rw (at, ← same, expired) refl

module _ (y : System) (h : Sound y) where
  -- `set` and `remove` under the lock.
  set-Sound :
      (t : ℕ) (key value : Bytes) (expires_at_ms : ℕ) (f : Faults)
      → y.places t ≡ setting key value expires_at_ms
      → IsFree y
      → (set_locked f y.store key value expires_at_ms).1 ≡ success
      → log_size y.history + record_size (set_record key value expires_at_ms) < 2 ^ 64
      → Sound (record (move y t idle (set_locked f y.store key value expires_at_ms).0) {
        history = y.history ++ set_record key value expires_at_ms ∷ [];
      })
  set-Sound t key value expires_at_ms f at free ok small = elim (Bool-cases y.store.opened) [
    | inl opened ↦
        let stands =
          Written-Represents y.clock y.store y.history _ _
            (set_locked_lem y.clock y.store y.history h.stands key value expires_at_ms
              (at_place y t _ h at) f opened small)
            ok in
        record {
          stands = stands;
          word = h.word;
          good =
              moved-IsGood y.clock _ y.places t idle
                (λ i. IsGood-free y.clock y.history _ (y.places i) (free i) (h.good i)) tt;
        }
    | inr shut ↦ absurd (ground (arith, set_shut f y.store key value expires_at_ms shut, ok))
  ]

  shut-Sound :
      (t : ℕ) (key value : Bytes) (expires_at_ms : ℕ) (f : Faults)
      → y.store.opened ≡ false
      → Sound (move y t idle (set_locked f y.store key value expires_at_ms).0)
  shut-Sound t key value expires_at_ms f shut =
      rw (set_shut f y.store key value expires_at_ms shut)
        (thread-Sound y t idle y.store h h.stands tt)

  remove-Sound :
      (now_ms : ℕ) (key : Bytes) (metadata : RecordMetadata) (f : Faults)
      → is_ok (validate_key key) ≡ true
      → IsFree y
      → y.clock ≤ now_ms
      → now_ms < 2 ^ 63
      → is_expired metadata.expires_at_ms now_ms ≡ false
      → (remove_found f now_ms y.store key metadata).1 ≡ success
      → log_size y.history + record_size (delete_record key) < 2 ^ 64
      → Sound (record y {
        store = (remove_found f now_ms y.store key metadata).0;
        clock = now_ms;
        history = y.history ++ delete_record key ∷ [];
      })
  remove-Sound now_ms key metadata f valid free le word fresh ok small =
      let later = later-Sound y now_ms h le word in
      record {
        stands =
            Written-Represents now_ms y.store y.history _ _
              (removed-Written now_ms y.store y.history later.stands key valid f metadata fresh
                small)
              ok;
        word = word;
        good = λ i. IsGood-free now_ms y.history _ (y.places i) (free i) (later.good i);
      }

  expired-Sound :
      (now_ms : ℕ) (key : Bytes) (metadata : RecordMetadata) (f : Faults)
      → y.clock ≤ now_ms
      → now_ms < 2 ^ 63
      → find key y.store.index ≡ some metadata
      → is_expired metadata.expires_at_ms now_ms ≡ true
      → Sound (record y { store = (remove_found f now_ms y.store key metadata).0; clock = now_ms })
        × (view now_ms y.history key ≡ none)
  expired-Sound now_ms key metadata f le word there expired =
      let later = later-Sound y now_ms h le word in
      let (slot, at, same) = found_slot now_ms y.store y.history later.stands key metadata there in
      let gone = look_denied y h 0 now_ms key le word metadata there expired in
      (
        rw (dropped f now_ms y.store key metadata expired) (record {
          stands =
              drop_key-Represents now_ms y.store y.history key slot at (rw same at expired)
                later.stands;
          word = word;
          good = later.good;
        }),
        gone,
      )

-- The flags of the store say nothing of its records.
flagged :
    (y : System) (h : Sound y) (opened stop_requested cleaner_running : Bool)
    → Represents y.clock
        (record y.store {
          opened = opened;
          stop_requested = stop_requested;
          cleaner_running = cleaner_running;
        })
        y.history
flagged y h opened stop_requested cleaner_running =
    refreshed y.clock y.store y.history h.stands _ h.stands.file refl h.stands.cache_valid
      h.stands.cache_agrees

-- Whatever step a thread takes: the invariant holds behind it, and what a call tells its client in it is right.
step-Sound :
    {y y' : System} {l : Label}
    → Step y l y'
    → y.clock ≤ y'.clock
    → y'.clock < 2 ^ 63
    → Sound y
    → Sound y' × IsRight y' l
step-Sound (looks_missing y t now_ms key at missing) le word h = (
  look-Sound y h t now_ms key le word idle tt,
  missing_view now_ms y.store y.history (looked-Sound y h t now_ms key le word).stands key missing,
)
step-Sound (looks_expired y t now_ms key metadata at there expired) le word h = (
  look-Sound y h t now_ms key le word (outdated key now_ms) (omega arith),
  look_denied y h t now_ms key le word metadata there expired,
)
step-Sound (looks_live y t now_ms key metadata at there fresh) le word h = (
  look-Sound y h t now_ms key le word (found key metadata)
      (found_slot y.clock y.store y.history h.stands key metadata there),
  tt,
)
step-Sound (hits y t key value metadata at hit) le word h = (
  thread-Sound y t idle _ h (looked_up-Represents y.clock y.store y.history h.stands key) tt,
  hit_right y.clock y.store y.history h.stands key value hit,
)
step-Sound (misses y t key metadata at miss) le word h = (
  thread-Sound y t (missed key metadata) _ h
      (looked_up-Represents y.clock y.store y.history h.stands key)
      (at_place y t (found key metadata) h at),
  tt,
)
step-Sound (reads y t key value metadata f at read) le word h =
    let (slot, is_slot, same) = at_place y t (missed key metadata) h at in
    (
      thread-Sound y t (loaded key metadata value) _ h
          (read-Represents y.clock y.store y.history h.stands f metadata)
          (
            slot,
            is_slot,
            read_right y.clock y.store y.history h.stands f key value metadata slot is_slot same
                read,
          ),
      tt,
    )
step-Sound (fails y t key metadata f st at failed) le word h = (
  thread-Sound y t idle _ h (read-Represents y.clock y.store y.history h.stands f metadata) tt,
  tt,
)
step-Sound (fills y t key value metadata at) le word h =
    let (slot, is_slot, same) = at_place y t (loaded key metadata value) h at in
    let said : slot_value (slot_at key y.history) ≡ some value = rw (is_slot, same) refl in
    (
      thread-Sound y t idle _ h
          (filled-Represents y.clock y.store y.history h.stands key value said) tt,
      said,
    )
step-Sound (erases y t now_ms key at free) le word h = (
  thread-Sound y t idle _ h
      (erased-Represents y.clock y.store y.history h.stands now_ms key
        (at_place y t (outdated key now_ms) h at) h.word)
      tt,
  tt,
)
step-Sound (prepares y t now_ms key value ttl at accepted) le word h =
    let later = later-Sound y now_ms h le word in
    (
      thread-Sound (at_time y now_ms) t (setting key value (expiry now_ms ttl)) y.store later
          later.stands (accepted-IsStorable now_ms y.store key value ttl accepted),
      tt,
    )
step-Sound (sets y t key value expires_at_ms f at free ok small) le word h =
    (set-Sound y h t key value expires_at_ms f at free ok small, tt)
step-Sound (finds_shut y t key value expires_at_ms f at free shut) le word h =
    (shut-Sound y h t key value expires_at_ms f shut, tt)
step-Sound (removes_missing y key free missing) le word h =
    (h, missing_view y.clock y.store y.history h.stands key missing)
step-Sound (removes y now_ms key metadata f valid free there fresh ok small) le word h =
    (remove-Sound y h now_ms key metadata f valid free le word fresh ok small, tt)
step-Sound (removes_expired y now_ms key metadata f free there expired) le word h =
    expired-Sound y h now_ms key metadata f le word there expired
step-Sound (closes y t at opened) le word h =
    (thread-Sound y t closing _ h (flagged y h _ _ y.store.cleaner_running) tt, tt)
step-Sound (closes_again y t at shut) le word h = (h, tt)
step-Sound (requests y t at) le word h =
    (thread-Sound y t joining _ h (flagged y h _ _ y.store.cleaner_running) tt, tt)
step-Sound (joins y t at gone) le word h =
    (thread-Sound y t idle _ h (flagged y h _ _ false) tt, tt)
step-Sound (cleaner_looks y at) le word h =
    (record { stands = h.stands; word = h.word; good = h.good }, tt)
step-Sound (cleaner_wakes y at) le word h =
    (record { stands = h.stands; word = h.word; good = h.good }, tt)
step-Sound (cleaner_tests y at) le word h =
    (record { stands = h.stands; word = h.word; good = h.good }, tt)
step-Sound (cleaner_sweeps y now_ms at free) le word h =
    let later = later-Sound y now_ms h le word in
    (
      record {
        stands = swept_store-Represents now_ms y.store y.history later.stands;
        word = word;
        good = later.good;
      },
      tt,
    )

-- Any number of steps of any threads.
pub data Run : System → System → Type 0 where
  none_taken : (y : System) → Run y y
  taken : {y y' y'' : System} {l : Label} → Run y y' → Step y' l y'' → Run y y''

-- No step of the run reads a time that is less than the one read before it, or one that a signed word of 64
-- bits does not hold.
abbrev pub IsSteady : {y y' : System} → Run y y' → Type 0
IsSteady (none_taken y) = Unit
IsSteady (taken {y' = y'} {y'' = y''} before step) =
    IsSteady before × (y'.clock ≤ y''.clock) × (y''.clock < 2 ^ 63)

-- However the steps of the threads, of `close` and of the cleaner interleave, in a run in which the
-- clock never goes back between two readings and stays below 2 ^ 63, in which each write that gets
-- the lock of an open store succeeds and leaves a log shorter than 2 ^ 64, and in which no `open`,
-- `compact`, `keys` or `statistics` is called: if at the start the store stands for the history, the
-- clock is below 2 ^ 63, and what each thread has seen is right, then all of this is so at the end.
pub run-Sound : {y y' : System} (run : Run y y') → IsSteady run → Sound y → Sound y'
run-Sound (none_taken y) steady h = h
run-Sound (taken before step) (steady, le, word) h =
    (step-Sound step le word (run-Sound before steady h)).0

-- Where the store stands for the history at the start, and the clock and what the threads know are
-- right: however the steps interleave, in a run in which the clock never goes back between two
-- readings and stays below 2 ^ 63, in which each write that gets the lock of an open store succeeds
-- and leaves a log shorter than 2 ^ 64, and in which no `open`, `compact`, `keys` or `statistics` is
-- called, a value that a `get` returns is the last that the history has for the key when it returns,
-- and NOT_FOUND, from a `get` or a `remove`, means that the history gives the key no value when the
-- index is looked at, at the time that `clock` then has.
pub answer-IsRight :
    {y y' y'' : System} {l : Label} (before : Run y y') (step : Step y' l y'')
    → IsSteady (taken before step)
    → Sound y
    → IsRight y'' l
answer-IsRight before step (steady, le, word) h =
    (step-Sound step le word (run-Sound before steady h)).1
