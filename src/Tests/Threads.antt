-- ===== src/Tests/Threads.antt =====
-- Two threads and the cleaner on a store with no records.
use mini_kvstore.Prelude.{◌≡◌, refl, true, false, some, Bytes, bytes_key, [], ◌∷◌, arith}
use mini_kvstore.UnorderedMap.{find}
use mini_kvstore.KeyValueStore.{validate_key, validate_value}
use mini_kvstore.KeyValueStore.Setting.{IsAccepted}
use mini_kvstore.KeyValueStore.Threads.{
  idle, setting, System, move, at_time, counted, denied, looking, testing, locking, ended, Step,
  prepares, looks_missing, cleaner_tests, cleaner_sweeps, cleaner_looks,
}
use mini_kvstore.KeyValueStore.Threads.Invariant.{Sound, IsRight}
use mini_kvstore.KeyValueStore.Threads.Runs.{
  Run, IsSteady, none_taken, taken, run-Sound, answer-IsRight,
}
use mini_kvstore.KeyValueStore.Threads.Cleaner.{cleanings, cleaner_ends}
use mini_kvstore.KeyValueStore.Sweep.{swept_store}
use mini_kvstore.Tests.Fixtures.{empty_store, empty_store-Represents}

abbrev name : Bytes
name = b'k' ∷ []

abbrev content : Bytes
content = b'v' ∷ []

abbrev quiet : System
quiet = record {
  store = empty_store;
  places = λ t. idle;
  cleaner = looking;
  clock = 5;
  history = [];
}

quiet-Sound : Sound quiet
quiet-Sound = record { stands = empty_store-Represents 5; word = omega arith; good = λ t. tt }

name-IsAccepted : IsAccepted empty_store name content (some 10)
unfolding validate_key validate_value
name-IsAccepted = record { opened = refl; key_valid = refl; value_valid = refl; ttl_valid = refl }

-- Thread 0 is in a `set`, before the lock.
abbrev preparing : System
preparing = at_time (move quiet 0 (setting name content 16) empty_store) 6

first_run : Run quiet preparing
first_run =
    taken (none_taken quiet) (prepares quiet 0 6 name content (some 10) refl name-IsAccepted)

first_run-IsSteady : IsSteady first_run
unfolding first_run
first_run-IsSteady = (tt, omega arith, omega arith)

run-Sound_example : Sound preparing
run-Sound_example = run-Sound first_run first_run-IsSteady quiet-Sound

-- Thread 1 looks for the key before thread 0 has the lock.
abbrev missing : System
missing = at_time (move preparing 1 idle (counted empty_store)) 7

look : Step preparing (denied name) missing
unfolding find
look = looks_missing preparing 1 7 name refl refl

answer-IsRight_example : IsRight missing (denied name)
answer-IsRight_example =
    answer-IsRight first_run look (first_run-IsSteady, omega arith, omega arith) quiet-Sound

-- The store has been shut while the cleaner was on its way to `cleanupExpired`.
abbrev shut : System
shut = record quiet {
  store = record empty_store { opened = false; stop_requested = true };
  cleaner = testing;
}

abbrev tested : System
tested = record shut { cleaner = looking }

-- The store is shut while the cleaner waits for the lock.
abbrev locked : System
locked = record quiet {
  store = record empty_store { opened = false; stop_requested = true };
  cleaner = locking;
}

abbrev swept : System
swept = record locked { store = swept_store 9 locked.store; cleaner = looking; clock = 9 }

last_run : Run locked (record swept { cleaner = ended })
last_run =
    taken (taken (none_taken locked) (cleaner_sweeps locked 9 refl (λ t. refl)))
      (cleaner_looks swept refl)

cleanings-last_run : cleanings last_run ≡ 2
unfolding last_run
cleanings-last_run = refl

cleaner_ends_example : (record swept { cleaner = ended }).cleaner ≡ ended
cleaner_ends_example = cleaner_ends last_run refl (omega (arith, cleanings-last_run))

-- With the store shut, the cleaner goes back to the test of its loop, which it leaves.
skipping : Run shut (record tested { cleaner = ended })
skipping = taken (taken (none_taken shut) (cleaner_tests shut refl)) (cleaner_looks tested refl)
