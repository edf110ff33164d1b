-- ===== src/KeyValueStore/Threads/Cleaner.antt =====
-- The end of the cleaner thread, for which `close` waits.
use mini_kvstore.Prelude.{
  ℕ, ◌+◌, ◌≤◌, ◌≡◌, refl, ◌∙◌, Bool, true, false, Bytes, Bool-cases, inl, inr, arith, bytes_key,
  if◌then◌else◌,
}
use mini_kvstore.Record.{RecordMetadata}
use mini_kvstore.AppendOnlyStore.{Faults}
use mini_kvstore.KeyValueStore.{Store, set_locked, erase_if_expired, remove_found}
use mini_kvstore.KeyValueStore.Threads.{
  System, Label, CleanerPlace, looking, waiting, testing, locking, ended, Step, looks_missing,
  looks_expired, looks_live, hits, misses, reads, fails, fills, erases, prepares, sets, finds_shut,
  removes_missing, removes, removes_expired, closes, closes_again, requests, joins, cleaner_looks,
  cleaner_wakes, cleaner_sweeps, cleaner_tests,
}
use mini_kvstore.KeyValueStore.Threads.Runs.{Run, none_taken, taken}

-- Whether the step is one of the cleaner thread, but for its look at `opened_`.
abbrev pub is_cleaning : {y y' : System} {l : Label} → Step y l y' → Bool
is_cleaning (cleaner_looks y at) = true
is_cleaning (cleaner_wakes y at) = true
is_cleaning (cleaner_sweeps y now_ms at free) = true
is_cleaning _ = false

-- How many steps of the run are such.
abbrev pub cleanings : {y y' : System} → Run y y' → ℕ
cleanings (none_taken y) = 0
cleanings (taken before step) = if is_cleaning step then cleanings before + 1 else cleanings before

-- How many steps the cleaner is away from its end, once it is asked to stop.
abbrev distance : CleanerPlace → ℕ
distance looking = 1
distance waiting = 1
distance testing = 2
distance locking = 2
distance ended = 0

stop-erase_if_expired :
    (now_ms : ℕ) (s : Store) (key : Bytes)
    → (erase_if_expired now_ms s key).0.stop_requested ≡ s.stop_requested
unfolding erase_if_expired
stop-erase_if_expired now_ms s key = ground arith

stop-set_locked :
    (f : Faults) (s : Store) (key value : Bytes) (expires_at_ms : ℕ)
    → (set_locked f s key value expires_at_ms).0.stop_requested ≡ s.stop_requested
unfolding set_locked
stop-set_locked f s key value expires_at_ms = ground arith

stop-remove_found :
    (f : Faults) (now_ms : ℕ) (s : Store) (key : Bytes) (metadata : RecordMetadata)
    → (remove_found f now_ms s key metadata).0.stop_requested ≡ s.stop_requested
unfolding remove_found
stop-remove_found f now_ms s key metadata = ground arith

-- A step of another thread, or the look at `opened_`, takes the cleaner no further away from its end, and one of the cleaner brings it nearer to its end.
Nearer : Bool → System → System → Type 0
Nearer cleaning y y' =
    (y'.store.stop_requested ≡ true)
    × (distance y'.cleaner + (if cleaning then 1 else 0) ≤ distance y.cleaner)

step-Nearer :
    {y y' : System} {l : Label} (step : Step y l y')
    → y.store.stop_requested ≡ true
    → Nearer (is_cleaning step) y y'
unfolding Nearer
step-Nearer (looks_missing y t now_ms key at missing) stop = (stop, omega arith)
step-Nearer (looks_expired y t now_ms key metadata at there expired) stop = (stop, omega arith)
step-Nearer (looks_live y t now_ms key metadata at there fresh) stop = (stop, omega arith)
step-Nearer (hits y t key value metadata at hit) stop = (stop, omega arith)
step-Nearer (misses y t key metadata at miss) stop = (stop, omega arith)
step-Nearer (reads y t key value metadata f at read) stop = (stop, omega arith)
step-Nearer (fails y t key metadata f st at failed) stop = (stop, omega arith)
step-Nearer (fills y t key value metadata at) stop = (stop, omega arith)
step-Nearer (erases y t now_ms key at free) stop =
    (stop-erase_if_expired now_ms y.store key ∙ stop, omega arith)
step-Nearer (prepares y t now_ms key value ttl at accepted) stop = (stop, omega arith)
step-Nearer (sets y t key value expires_at_ms f at free ok small) stop =
    (stop-set_locked f y.store key value expires_at_ms ∙ stop, omega arith)
step-Nearer (finds_shut y t key value expires_at_ms f at free shut) stop =
    (stop-set_locked f y.store key value expires_at_ms ∙ stop, omega arith)
step-Nearer (removes_missing y key free missing) stop = (stop, omega arith)
step-Nearer (removes y now_ms key metadata f valid free there fresh ok small) stop =
    (stop-remove_found f now_ms y.store key metadata ∙ stop, omega arith)
step-Nearer (removes_expired y now_ms key metadata f free there expired) stop =
    (stop-remove_found f now_ms y.store key metadata ∙ stop, omega arith)
step-Nearer (closes y t at opened) stop = (stop, omega arith)
step-Nearer (closes_again y t at shut) stop = (stop, omega arith)
step-Nearer (requests y t at) stop = (refl, omega arith)
step-Nearer (joins y t at gone) stop = (stop, omega arith)
step-Nearer (cleaner_looks y at) stop = (stop, rw (at, stop) (omega arith))
step-Nearer (cleaner_wakes y at) stop = (stop, rw (at, stop) (omega arith))
step-Nearer (cleaner_sweeps y now_ms at free) stop = (stop, rw at (omega arith))
step-Nearer (cleaner_tests y at) stop = (stop, rw at (ground arith))

run_nearer :
    {y y' : System} (run : Run y y')
    → y.store.stop_requested ≡ true
    → (y'.store.stop_requested ≡ true) × (distance y'.cleaner + cleanings run ≤ distance y.cleaner)
unfolding Nearer
run_nearer (none_taken y) stop = (stop, omega arith)
run_nearer (taken before step) stop =
    let (stop', near) = run_nearer before stop in
    let (stop'', nearer) = step-Nearer step stop' in
    (
      stop'',
      elim (Bool-cases (is_cleaning step)) [
        | inl cleaning ↦ rw cleaning (omega (arith, near, (rw cleaning at nearer)))
        | inr other ↦ rw other (omega (arith, near, (rw other at nearer)))
      ],
    )

distance_ended : (p : CleanerPlace) → distance p ≤ 0 → p ≡ ended
distance_ended looking h = absurd (omega (arith, h))
distance_ended waiting h = absurd (omega (arith, h))
distance_ended testing h = absurd (omega (arith, h))
distance_ended locking h = absurd (omega (arith, h))
distance_ended ended h = refl

distance-le : (p : CleanerPlace) → distance p ≤ 2
distance-le looking = omega arith
distance-le waiting = omega arith
distance-le testing = omega arith
distance-le locking = omega arith
distance-le ended = omega arith

-- Once the cleaner is asked to stop, it has ended when it has taken two steps of its own, the look at
-- `opened_` with which `cleanupExpired` begins not counted, however they lie between the steps of the
-- other threads. In no run is `open` called.
pub cleaner_ends :
    {y y' : System} (run : Run y y')
    → y.store.stop_requested ≡ true
    → 2 ≤ cleanings run
    → y'.cleaner ≡ ended
cleaner_ends {y} {y'} run stop enough =
    distance_ended y'.cleaner (omega (arith, (run_nearer run stop).1, distance-le y.cleaner))
