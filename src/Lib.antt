-- ===== src/Lib.antt =====
-- MiniKV Store: a key-value store over an append-only data file (src/, include/minikv/).
--
-- The parts, and how they interact:
-- - Status, Result: include/minikv/Status.h, src/Status.cpp, include/minikv/Result.h. `succeed` and
--   `fail` are the two states of a `Result`.
-- - Record: include/minikv/Record.h and src/Record.cpp, the constants of the record format, the
--   checksum and the test for expiry. An `std::int64_t` is its two's complement word.
-- - LruCache: include/minikv/LruCache.h. A node of the list of entries has a number, which stands for
--   the iterator that the index holds. Valid relates each method to a list of entries by their use.
-- - AppendOnlyStore: include/minikv/AppendOnlyStore.h and src/AppendOnlyStore.cpp. Header is the
--   record's header, Files the files and how they are opened, Recovery the scan of the data file, and
--   Compaction its replacement. Each operation takes `Faults`: which calls of the operating system
--   fail in it, how much can be written and how much can be read.
-- - KeyValueStore: include/minikv/KeyValueStore.h and src/KeyValueStore.cpp, over the two above. Each
--   method is a function from a store to a store and its result. Sweep has the methods that go over
--   the whole index. Slots says what a log of records says of a key, with no index and no cache, and
--   Represents when a store stands for a log: this is the specification of the methods.
--   Threads has the same store under calls of several threads and the cleaner thread: a relation
--   between states, with one step for what a thread does between two operations on a lock.
-- - CommandParser: include/minikv/CommandParser.h and src/CommandParser.cpp. Tokens is the tokenizer,
--   Numbers `std::from_chars`; Requests says how each command is written, Says what the tokens of any
--   line say, and Quotes which lines have tokens.
-- - App: app/main.cpp, over the parser and the store. Arguments is the loop over `argv`, Printing what
--   is written. A run of the program is a list of lines, each with the clock and the calls of the
--   operating system while it is answered, and of rounds of the cleaner thread between them.
--   Reference says what a run is to write, with a log alone.
-- - UnorderedMap and Prelude: `std::unordered_map` as an association list, and the shared helpers.
--
-- Bounds and fuel: `uint32_t` and `uint64_t` wrap around (`u32`, `u64`). The loop of `recover` runs on
-- as many rounds as the file has bytes, and every round that goes on moves by at least one. Offsets
-- are exact as long as the data file is shorter than 2 ^ 64 bytes, a hypothesis where it is needed.
--
-- Not modelled: the benchmark and the tests, which have no logic of the store; writing to `std::cout`
-- that fails; the text of the cache's hit rate, a floating-point number and a parameter here; what a
-- crash of the machine does to bytes that were flushed. In the relation of Threads, `remove` is one step
-- under its lock, writes succeed and leave a log shorter than 2 ^ 64 bytes, and `open` (which resets
-- `stopRequested_`), `compact`, `keys` and `statistics` do not occur; a lock that is held alone is taken
-- in the step that uses it; the timeout of `wait_for` may come at any moment. A step of that relation
-- may read any time: what is shown of its runs is for a clock that never goes back between two readings
-- and stays below 2 ^ 63, a hypothesis (`IsSteady`) that `std::chrono::system_clock` does not by itself
-- guarantee. The clock is an argument of each call.
pub mod Prelude
pub mod UnorderedMap
pub mod Status
pub mod Result
pub mod Record
pub mod LruCache
pub mod AppendOnlyStore
pub mod KeyValueStore
pub mod CommandParser
pub mod App
pub mod Tests
