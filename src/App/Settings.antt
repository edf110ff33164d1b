-- ===== src/App/Settings.antt =====
-- The arguments that say a configuration, and what the program reads from them.
use mini_kvstore.Prelude.{
  ℕ, suc, false, ◌^◌, ◌<◌, ◌≡◌, refl, ◌∙◌, Bytes, text, bytes_eq, decimal, some, List, [], ◌∷◌,
  arith,
}
use mini_kvstore.CommandParser.Numbers.{scan_digits, from_chars_unsigned}
use mini_kvstore.CommandParser.Ttl.{scan_digits-decimal_loop}
use mini_kvstore.KeyValueStore.{StoreConfig}
use mini_kvstore.App.Arguments.{
  parse_positive_size, configured, take_option, launch, parse_arguments,
}

-- A setting, and how it is written.
pub data Setting : Type 0 where
  data_file : Bytes → Setting
  cache_capacity cleanup_interval : ℕ → Setting

abbrev pub written : List Setting → List Bytes
written [] = []
written (data_file path ∷ rest) = text "--data" ∷ path ∷ written rest
written (cache_capacity n ∷ rest) = text "--cache" ∷ decimal n ∷ written rest
written (cleanup_interval n ∷ rest) = text "--cleanup-ms" ∷ decimal n ∷ written rest

-- A later setting overrides an earlier one.
abbrev pub configure : StoreConfig → List Setting → StoreConfig
configure config [] = config
configure config (data_file path ∷ rest) = configure (record config { data_file = path }) rest
configure config (cache_capacity n ∷ rest) = configure (record config { cache_capacity = n }) rest
configure config (cleanup_interval n ∷ rest) =
    configure (record config { cleanup_interval = n }) rest

-- The numbers are positive and below 2 ^ 64.
abbrev pub AreSizes : List Setting → Type 0
AreSizes [] = Unit
AreSizes (data_file path ∷ rest) = AreSizes rest
AreSizes (cache_capacity n ∷ rest) = (0 < n) × (n < 2 ^ 64) × AreSizes rest
AreSizes (cleanup_interval n ∷ rest) = (0 < n) × (n < 2 ^ 64) × AreSizes rest

parse_positive_size-decimal :
    (n : ℕ) → 0 < n → n < 2 ^ 64 → parse_positive_size (decimal n) ≡ some n
unfolding parse_positive_size decimal from_chars_unsigned
parse_positive_size-decimal n positive small =
    let read =
      scan_digits-decimal_loop (suc n) n [] false (omega arith) ∙ unfold scan_digits in refl in
    ground (arith, read)

take_data :
    (config : StoreConfig) (path : Bytes)
    → take_option config (text "--data") path ≡ configured (record config { data_file = path })
unfolding take_option bytes_eq text
take_data config path = refl

module _ (config : StoreConfig) (n : ℕ) (positive : 0 < n) (small : n < 2 ^ 64) where
  take_cache :
      take_option config (text "--cache") (decimal n)
      ≡ configured (record config { cache_capacity = n })
  unfolding take_option bytes_eq text
  take_cache = rw (parse_positive_size-decimal n positive small) refl

  take_cleanup :
      take_option config (text "--cleanup-ms") (decimal n)
      ≡ configured (record config { cleanup_interval = n })
  unfolding take_option bytes_eq text
  take_cleanup = rw (parse_positive_size-decimal n positive small) refl

-- Written settings in any number and order, with positive numbers below 2 ^ 64, are read back: the loop ends with
-- the configuration that they change the given one to.
pub parse_arguments-written :
    (program : Bytes) (config : StoreConfig) (settings : List Setting)
    → AreSizes settings
    → parse_arguments program config (written settings) ≡ launch (configure config settings)
unfolding parse_arguments bytes_eq text
parse_arguments-written program config [] h = refl
parse_arguments-written program config (data_file path ∷ rest) h =
    rw (take_data config path) (parse_arguments-written program _ rest h)
parse_arguments-written program config (cache_capacity n ∷ rest) (positive, small, h) =
    rw (take_cache config n positive small) (parse_arguments-written program _ rest h)
parse_arguments-written program config (cleanup_interval n ∷ rest) (positive, small, h) =
    rw (take_cleanup config n positive small) (parse_arguments-written program _ rest h)
