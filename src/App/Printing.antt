-- ===== src/App/Printing.antt =====
-- What app/main.cpp writes: `printHelp`, `printStatistics`, `printUsage` and the lines of a reply.
use mini_kvstore.Prelude.{ℕ, suc, Bytes, text, decimal, List, [], ◌∷◌, ◌++◌, length}
use mini_kvstore.Status.{Status, to_string}
use mini_kvstore.LruCache.{CacheStatistics}
use mini_kvstore.KeyValueStore.Sweep.{EngineStatistics, CompactionSummary}

-- A line, with its end.
abbrev pub line : Bytes → Bytes
line content = content ++ b'\n' ∷ []

unfoldable pub print_help : Bytes
print_help =
    line (text "Commands:")
    ++ line (text "  SET key value                 Store a value")
    ++ line (text "  SET key value TTL seconds     Store a value with expiration")
    ++ line (text "  GET key                       Read a value")
    ++ line (text "  DEL key                       Delete a value")
    ++ line (text "  EXISTS key                    Test whether a key exists")
    ++ line (text "  KEYS [prefix]                 List keys, optionally by prefix")
    ++ line (text "  STATS                         Show engine and cache statistics")
    ++ line (text "  COMPACT                       Rewrite only live records")
    ++ line (text "  HELP                          Show this help")
    ++ line (text "  EXIT                          Close the store and exit")
    ++ line (text "Quote values containing spaces, for example:")
    ++ line (text "  SET greeting \"hello world\" TTL 60")

-- `percent` writes `hitRate() * 100.0`, a floating-point number, with two digits behind the point.
unfoldable pub print_statistics : (CacheStatistics → Bytes) → EngineStatistics → Bytes
print_statistics percent statistics =
    line (text "keys                : " ++ decimal statistics.key_count)
    ++ line (text "data file bytes     : " ++ decimal statistics.data_file_bytes)
    ++ line (text "SET operations      : " ++ decimal statistics.set_operations)
    ++ line (text "GET operations      : " ++ decimal statistics.get_operations)
    ++ line (text "DEL operations      : " ++ decimal statistics.delete_operations)
    ++ line (text "expired keys        : " ++ decimal statistics.expired_keys)
    ++ line (text "compactions         : " ++ decimal statistics.compactions)
    ++ line (text "recovered records   : " ++ decimal statistics.recovered_records)
    ++ line (text "truncated tail bytes: " ++ decimal statistics.truncated_tail_bytes)
    ++ line (
        text "cache size/capacity : "
        ++ decimal statistics.cache.size
        ++ text "/"
        ++ decimal statistics.cache.capacity)
    ++ line (text "cache hits          : " ++ decimal statistics.cache.hits)
    ++ line (text "cache misses        : " ++ decimal statistics.cache.misses)
    ++ line (text "cache evictions     : " ++ decimal statistics.cache.evictions)
    ++ line (text "cache hit rate      : " ++ percent statistics.cache ++ text "%")

unfoldable pub print_usage : Bytes → Bytes
print_usage program = line (
    text "Usage: "
    ++ program
    ++ text " [--data PATH] [--cache CAPACITY] [--cleanup-ms MILLISECONDS]")

-- `std::cout << "(error) " << status.toString() << '\n'`
unfoldable pub error_line : Status → Bytes
error_line st = line (text "(error) " ++ to_string st)

-- The loop over the keys, from the number behind `index` on.
unfoldable pub key_lines : ℕ → List Bytes → Bytes
key_lines index [] = []
key_lines index (key ∷ rest) =
    line (decimal (suc index) ++ text ") " ++ key) ++ key_lines (suc index) rest

unfoldable pub print_keys : List Bytes → Bytes
print_keys keys = key_lines 0 keys ++ line (decimal (length keys) ++ text " key(s)")

unfoldable pub print_summary : CompactionSummary → Bytes
print_summary summary = line (
    text "OK: "
    ++ decimal summary.live_keys
    ++ text " live key(s), "
    ++ decimal summary.old_file_bytes
    ++ text " -> "
    ++ decimal summary.new_file_bytes
    ++ text " bytes")

abbrev pub prompt : Bytes
prompt = text "minikv> "

abbrev pub banner : Bytes
banner =
    line (text "MiniKV Store 1.0")
    ++ line (text "Persistent C++17 key-value engine. Type HELP for commands.")
