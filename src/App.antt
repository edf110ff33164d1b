-- ===== src/App.antt =====
-- app/main.cpp. What the program writes is the bytes that it returns; writing to `std::cout` does not fail.
pub mod Printing
pub mod Arguments
pub mod Reference
pub mod Answering
pub mod Refinement
pub mod Restart
pub mod Settings
use mini_kvstore.Prelude.{
  ℕ, Bool, true, false, not, ◌&&◌, Bytes, text, List, [], ◌∷◌, ◌++◌, if◌then◌else◌, Option, none,
  some,
}
use mini_kvstore.Status.{Status, is_ok, to_string}
use mini_kvstore.Result.{Result, succeed, fail}
use mini_kvstore.LruCache.{CacheStatistics}
use mini_kvstore.AppendOnlyStore.{Faults, Disk}
use mini_kvstore.KeyValueStore
use mini_kvstore.KeyValueStore.{
  Store, StoreConfig, is_not_found, new_store, open_store, close, destroy,
}
use mini_kvstore.KeyValueStore.Sweep
use mini_kvstore.CommandParser.{Command, CommandType, parse}
use Printing.{
  line, print_help, print_statistics, error_line, print_keys, print_summary, prompt, banner,
}
use Arguments.{Launch, launch, leave, default_config, parse_arguments}

-- What surrounds the program while it answers one line: the clock, what the calls of the operating system
-- do, and what they do in the read of each key by COMPACT.
pub record Surroundings : Type 0 where
  pub now_ms : ℕ
  pub faults : Faults
  pub reads : Bytes → Faults

-- What is left of a line: the store, what was written, and whether the loop goes on.
pub record Turn : Type 0 where
  pub store : Store
  pub output : Bytes
  pub goes_on : Bool

abbrev pub reply : Store → Bytes → Turn
reply s output = record { store = s; output = output; goes_on = true }

unfoldable pub answer_set : Surroundings → Store → Command → Turn
answer_set w s command =
    let (s', status) =
      KeyValueStore.set w.faults w.now_ms s command.key command.value command.ttl in
    reply s' (line (if is_ok status then text "OK" else text "(error) " ++ to_string status))

unfoldable pub print_get : Result Bytes → Bytes
print_get (succeed value) = line value
print_get (fail st) = if is_not_found st then line (text "(nil)") else error_line st

unfoldable pub answer_get : Surroundings → Store → Command → Turn
answer_get w s command =
    let (s', result) = KeyValueStore.get w.faults w.now_ms s command.key in
    reply s' (print_get result)

unfoldable pub print_delete : Status → Bytes
print_delete status =
    if is_ok status
    then line (text "1")
    else if is_not_found status
    then line (text "0")
    else error_line status

unfoldable pub answer_delete : Surroundings → Store → Command → Turn
answer_delete w s command =
    let (s', status) = KeyValueStore.remove w.faults w.now_ms s command.key in
    reply s' (print_delete status)

unfoldable pub print_exists : Result Bool → Bytes
print_exists (succeed there) = line (if there then text "1" else text "0")
print_exists (fail st) = line (text "(error) " ++ to_string st)

unfoldable pub answer_exists : Surroundings → Store → Command → Turn
answer_exists w s command =
    let (s', result) = KeyValueStore.exists w.faults w.now_ms s command.key in
    reply s' (print_exists result)

unfoldable pub answer_keys : Surroundings → Store → Command → Turn
answer_keys w s command =
    let (s', result) = Sweep.keys w.now_ms s command.key in
    reply s' (elim result [ fail st ↦ error_line st | succeed keys ↦ print_keys keys ])

unfoldable pub answer_compact : Surroundings → Store → Turn
answer_compact w s =
    let (s', result) = Sweep.compact w.reads w.faults w.now_ms s in
    reply s' (elim result [ fail st ↦ error_line st | succeed summary ↦ print_summary summary ])

-- The `switch`; `percent` writes the hit rate of the cache.
unfoldable pub answer_command : (CacheStatistics → Bytes) → Surroundings → Store → Command → Turn
answer_command percent w s command = elim command.type [
  | CommandType.set ↦ answer_set w s command
  | CommandType.get ↦ answer_get w s command
  | CommandType.delete ↦ answer_delete w s command
  | CommandType.exists ↦ answer_exists w s command
  | CommandType.keys ↦ answer_keys w s command
  | CommandType.stats ↦ reply s (print_statistics percent (Sweep.statistics w.faults s))
  | CommandType.compact ↦ answer_compact w s
  | CommandType.help ↦ reply s print_help
  | CommandType.exit ↦ record { store = (close s).0; output = line (text "Bye."); goes_on = false }
]

-- The body of the loop.
unfoldable pub answer : (CacheStatistics → Bytes) → Surroundings → Store → Bytes → Turn
answer percent w s input = elim (parse input) [
  | fail st ↦ reply s (error_line st)
  | succeed command ↦ answer_command percent w s command
]

-- What the program meets in turn: a line from `std::cin`, or a round of the cleaner thread between two
-- lines, at the time it reads from the clock.
pub data Event : Type 0 where
  entered : Surroundings → Bytes → Event
  cleaned : ℕ → Event

-- A round of the cleaner thread, if there is one.
unfoldable pub clean : ℕ → Store → Store
clean now_ms s = if s.cleaner_running then (Sweep.cleanup_expired now_ms s).0 else s

-- The loop until the lines end or EXIT: the store and what was written.
unfoldable pub session : (CacheStatistics → Bytes) → Store → List Event → Store × Bytes
session percent s [] = ((close s).0, prompt ++ line [])
session percent s (cleaned now_ms ∷ rest) = session percent (clean now_ms s) rest
session percent s (entered w input ∷ rest) =
    let turn = answer percent w s input in
    let (s', output) = session percent turn.store rest in
    if turn.goes_on
    then (s', prompt ++ turn.output ++ output)
    else (turn.store, prompt ++ turn.output)

-- How the program ends: whether the exit status is EXIT_SUCCESS, and what it wrote to
-- `std::cout` and `std::cerr`.
pub record Ended : Type 0 where
  pub success : Bool
  pub output : Bytes
  pub errors : Bytes

-- The program from the construction of the store to its destructor: `f`, `g`, `now_ms` and
-- `thread_error` are those of `open_store`. The store is the one that is left, with its files.
unfoldable pub run_store :
    (CacheStatistics → Bytes)
    → Faults
    → Faults
    → ℕ
    → Option Bytes
    → Store
    → List Event
    → Store × Ended
run_store percent f g now_ms thread_error s events =
    let (s', open_status) = open_store f g now_ms thread_error s in
    let (s'', output) = session percent s' events in
    if not (is_ok open_status)
    then (
      destroy s',
      record {
        success = false;
        output = [];
        errors = line (text "Failed to open MiniKV Store: " ++ to_string open_status);
      },
    )
    else (destroy s'', record { success = true; output = banner ++ output; errors = [] })

-- `main`, with no store where the arguments end it; `files` is what the file system has at a path.
unfoldable pub main :
    (CacheStatistics → Bytes)
    → Faults
    → Faults
    → ℕ
    → Option Bytes
    → (Bytes → Disk)
    → Bytes
    → List Bytes
    → List Event
    → Option Store × Ended
main percent f g now_ms thread_error files program arguments events =
    elim (parse_arguments program default_config arguments) [
      | leave success output errors ↦
          (none, record { success = success; output = output; errors = errors })
      | launch config ↦
          let (s, ended) =
            run_store percent f g now_ms thread_error (new_store config (files config.data_file))
              events in
          (some s, ended)
    ]
