-- ===== src/App/Arguments.antt =====
-- The arguments of the program: `parsePositiveSize` and the loop over `argv` in app/main.cpp.
use mini_kvstore.Prelude.{
  ℕ, ◌-◌, ◌^◌, ◌||◌, ◌==◌, Bool, true, false, Bytes, text, bytes_eq, List, [], ◌∷◌, ◌++◌, ltb,
  if◌then◌else◌, Option, none, some,
}
use mini_kvstore.CommandParser.Numbers.{from_chars_unsigned}
use mini_kvstore.KeyValueStore.{StoreConfig}
use mini_kvstore.App.Printing.{line, print_usage}

-- The `StoreConfig` with the values of its members' initialisers.
abbrev pub default_config : StoreConfig
default_config = record {
  data_file = text "data/minikv.aof";
  cache_capacity = 128;
  cleanup_interval = 1000;
  start_background_cleaner = true;
}

unfoldable pub parse_positive_size : Bytes → Option ℕ
parse_positive_size argument =
    let parsed = from_chars_unsigned argument in
    if parsed.failed || parsed.word == 0 || ltb (2 ^ 64 - 1) parsed.word
    then none
    else some parsed.word

-- What an argument with another behind it does: it changes the configuration, or it ends the
-- program with a message, or it is unknown.
pub data Effect : Type 0 where
  configured : StoreConfig → Effect
  refused : Bytes → Effect
  unknown : Effect

unfoldable pub take_option : StoreConfig → Bytes → Bytes → Effect
take_option config argument value =
    if bytes_eq argument (text "--data")
    then configured (record config { data_file = value })
    else if bytes_eq argument (text "--cache")
    then elim (parse_positive_size value) [
      | none ↦ refused (text "Invalid cache capacity.")
      | some capacity ↦ configured (record config { cache_capacity = capacity })
    ]
    else if bytes_eq argument (text "--cleanup-ms")
    then elim (parse_positive_size value) [
      | none ↦ refused (text "Invalid cleanup interval.")
      | some milliseconds ↦ configured (record config { cleanup_interval = milliseconds })
    ]
    else unknown

-- How the loop ends: with a configuration, or with the end of the program, of which `success`
-- says whether its exit status is EXIT_SUCCESS, and what it has written.
pub data Launch : Type 0 where
  launch : StoreConfig → Launch
  leave : (success : Bool) (output errors : Bytes) → Launch

abbrev pub is_help : Bytes → Bool
is_help argument = bytes_eq argument (text "--help") || bytes_eq argument (text "-h")

unfoldable pub unknown_argument : Bytes → Bytes → Launch
unknown_argument program argument =
    leave false (print_usage program) (line (text "Unknown or incomplete argument: " ++ argument))

-- The loop, on the arguments that are left.
unfoldable pub parse_arguments : Bytes → StoreConfig → List Bytes → Launch
parse_arguments program config [] = launch config
parse_arguments program config (argument ∷ []) =
    if is_help argument
    then leave true (print_usage program) []
    else unknown_argument program argument
parse_arguments program config (argument ∷ value ∷ rest) =
    if is_help argument
    then leave true (print_usage program) []
    else elim (take_option config argument value) [
      | configured changed ↦ parse_arguments program changed rest
      | refused message ↦ leave false [] (line message)
      | unknown ↦ unknown_argument program argument
    ]
