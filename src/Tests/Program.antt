-- ===== src/Tests/Program.antt =====
-- A run of the program: a SET, a round of the cleaner thread, a GET and an EXIT.
use mini_kvstore.Prelude.{
  ℕ, true, ◌≡◌, refl, none, some, Bytes, bytes_eq, take, text, decimal, List, [], ◌∷◌, ◌++◌, map,
  arith,
}
use mini_kvstore.Record.{Record, is_expired}
use mini_kvstore.LruCache.{CacheStatistics}
use mini_kvstore.AppendOnlyStore.{Disk}
use mini_kvstore.AppendOnlyStore.Header.RoundTrip.{IsStorable}
use mini_kvstore.KeyValueStore.{validate_key, validate_value}
use mini_kvstore.KeyValueStore.Slots.{slot_from}
use mini_kvstore.KeyValueStore.Writes.{set_record}
use mini_kvstore.CommandParser.Requests.{Request}
use mini_kvstore.App.{Surroundings, session, main}
use mini_kvstore.App.Printing.{prompt, line, banner}
use mini_kvstore.App.Arguments.{launch, default_config, parse_arguments}
use mini_kvstore.App.Settings.{Setting, written, parse_arguments-written}
use mini_kvstore.App.Reference.{Step, asked, swept, event_of, expected, final_log, Smooth}
use mini_kvstore.App.Refinement.{Ran, session-Ran}
use mini_kvstore.App.Restart.{Done, main-Done}
use mini_kvstore.Tests.Fixtures.{disk, disk-IsHealthy, empty_store, empty_store-Represents}

abbrev percent : CacheStatistics → Bytes
percent statistics = text "0.00"

abbrev at : ℕ → Surroundings
at now_ms = record { now_ms = now_ms; faults = disk 100; reads = λ key. disk 0 }

abbrev key : Bytes
key = b'k' ∷ []

abbrev value : Bytes
value = b'v' ∷ b' ' ∷ b'w' ∷ []

abbrev steps : List Step
steps =
    asked (at 5) (Request.set key value (some 60))
    ∷ swept 6
    ∷ asked (at 7) (Request.get key)
    ∷ asked (at 8) Request.exit
    ∷ []

written_log : final_log [] steps ≡ set_record key value 60005 ∷ []
unfolding validate_key validate_value
written_log = refl

said_steps :
    expected [] steps
    ≡ prompt ++ line (text "OK") ++ prompt ++ line value ++ prompt ++ line (text "Bye.")
unfolding validate_key validate_value text slot_from bytes_eq is_expired
said_steps = refl

steps-Smooth : Smooth 5 [] steps
unfolding validate_key validate_value
steps-Smooth = (
  record {
    later = omega arith;
    word = omega arith;
    healthy = disk-IsHealthy 100;
    writable = (omega arith, omega arith);
    covered = tt;
    small = omega arith;
    room = omega arith;
  },
  (
    omega arith,
    omega arith,
    (
      record {
        later = omega arith;
        word = omega arith;
        healthy = disk-IsHealthy 100;
        writable = tt;
        covered = tt;
        small = omega arith;
        room = omega arith;
      },
      (
        record {
          later = omega arith;
          word = omega arith;
          healthy = disk-IsHealthy 100;
          writable = tt;
          covered = tt;
          small = omega arith;
          room = omega arith;
        },
        tt,
      ),
    ),
  ),
)

session-Ran_example :
    Ran (final_log [] steps) (expected [] steps) (session percent empty_store (map event_of steps))
session-Ran_example =
    session-Ran percent 5 empty_store [] steps (empty_store-Represents 5) refl steps-Smooth

parse_arguments-written_example :
    parse_arguments (text "minikv") default_config (written (Setting.cache_capacity 2 ∷ []))
    ≡ launch (record default_config { cache_capacity = 2 })
parse_arguments-written_example =
    parse_arguments-written (text "minikv") default_config (Setting.cache_capacity 2 ∷ [])
      (omega arith, omega arith, tt)

-- A data file with no record.
abbrev files : Bytes → Disk
files path = record { has_parent = true; data_file = some []; temporary_file = none }

abbrev torn_record : Record
torn_record = set_record key value 0

torn_record-IsStorable : IsStorable torn_record
torn_record-IsStorable = record {
  key_some = omega arith;
  key_fits = omega arith;
  value_fits = omega arith;
  tombstone = λ e. ground arith;
  expiry_word = omega arith;
}

main-Done_example : Done (final_log [] steps) (banner ++ expected [] steps) (
    main percent
      (disk 0)
      (disk 0)
      5
      none
      files
      (text "minikv")
      (text "--cache" ∷ decimal 2 ∷ [])
      (map event_of steps))
unfolding take
main-Done_example =
    main-Done percent (disk 0) (disk 0) 5 (disk-IsHealthy 0) (disk-IsHealthy 0) (text "minikv")
      (text "--cache" ∷ decimal 2 ∷ []) (record default_config { cache_capacity = 2 })
      parse_arguments-written_example refl files [] torn_record 0 steps tt torn_record-IsStorable
      (omega arith) (omega arith) refl steps-Smooth
