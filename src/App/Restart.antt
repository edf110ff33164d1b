-- ===== src/App/Restart.antt =====
-- `main` from its arguments to its end, over the data file that an earlier run left.
use mini_kvstore.Prelude.{
  ℕ, ◌+◌, ◌^◌, ◌<◌, ◌≡◌, refl, ap, ◌∙◌, true, Option, none, some, List, [], ◌++◌, map, All, Bytes,
  take, arith,
}
use mini_kvstore.Status.{success}
use mini_kvstore.Record.{Record, is_positive64}
use mini_kvstore.LruCache.{CacheStatistics}
use mini_kvstore.AppendOnlyStore.{Faults, Disk, IsHealthy, encode, record_size}
use mini_kvstore.AppendOnlyStore.Header.RoundTrip.{IsStorable}
use mini_kvstore.AppendOnlyStore.Recovery.Log.{encode_all, log_size}
use mini_kvstore.KeyValueStore.{Store, StoreConfig, new_store, open_store, close, destroy}
use mini_kvstore.KeyValueStore.Opening.{open_store-Restored}
use mini_kvstore.App.{Event, Ended, session, run_store, main}
use mini_kvstore.App.Printing.{banner}
use mini_kvstore.App.Arguments.{launch, default_config, parse_arguments}
use mini_kvstore.App.Reference.{Step, event_of, expected, final_log, Smooth}
use mini_kvstore.App.Refinement.{session-Ran}

-- What a run of the program is to leave: the data file with a log, success, and what it wrote.
pub record Done (log : List Record) (output : Bytes) (outcome : Option Store × Ended) : Type 0 where
  pub store : Store
  pub left : outcome.0 ≡ some store
  pub file : store.storage.data_file ≡ some (encode_all log)
  pub succeeded : outcome.1.success ≡ true
  pub written : outcome.1.output ≡ output
  pub silent : outcome.1.errors ≡ []

file-destroy : (s : Store) → (destroy s).storage.data_file ≡ s.storage.data_file
unfolding destroy close
file-destroy s = ground arith

module _ (percent : CacheStatistics → Bytes) (f g : Faults) (now_ms : ℕ) where
  run_store_opened :
      (s : Store) (events : List Event)
      → (open_store f g now_ms none s).1 ≡ success
      → run_store percent f g now_ms none s events ≡ (
          let ended = session percent (open_store f g now_ms none s).0 events in
          (destroy ended.0, record { success = true; output = banner ++ ended.1; errors = [] }))
  unfolding run_store
  run_store_opened s events ok = rw (ok, run_store) refl

  main_launched :
      (files : Bytes → Disk) (program : Bytes) (arguments : List Bytes) (config : StoreConfig)
      (events : List Event)
      → parse_arguments program default_config arguments ≡ launch config
      → main percent f g now_ms none files program arguments events ≡ (
          let ended =
            run_store percent f g now_ms none (new_store config (files config.data_file)) events in
          (some ended.0, ended.1))
  unfolding main
  main_launched files program arguments config events h = rw (h, main) refl

  module _ (healthy_open : IsHealthy f) (healthy : IsHealthy g) (program : Bytes)
      (arguments : List Bytes) (config : StoreConfig)
      (launched : parse_arguments program default_config arguments ≡ launch config)
      (interval : is_positive64 config.cleanup_interval ≡ true) where
    -- Where the arguments give a configuration with a cleanup interval below 2 ^ 63 milliseconds,
    -- the data file holds the records of a log and any proper part of one more, in less than
    -- 2 ^ 64 bytes, and the cleaner thread starts; in a run of requests other than STATS and COMPACT
    -- and of rounds of the cleaner, in which the clock does not go back and stays below 2 ^ 63, no
    -- call of the operating system fails, the disk has room for the records, the log stays shorter
    -- than 2 ^ 64 bytes, and the times to live can be written: `main` succeeds, writes its banner and
    -- what the reference says of the log, and leaves the log of the reference in the data file.
    pub main-Done :
        (files : Bytes → Disk) (log : List Record) (r : Record) (n : ℕ) (steps : List Step)
        → All IsStorable log
        → IsStorable r
        → n < record_size r
        → log_size log + n < 2 ^ 64
        → (files config.data_file).data_file ≡ some (encode_all log ++ take n (encode r))
        → Smooth now_ms log steps
        → Done
            (final_log log steps)
            (banner ++ expected log steps)
            (main percent f g now_ms none files program arguments (map event_of steps))
    main-Done files log r n steps hs h short small content smooth =
        let s = new_store config (files config.data_file) in
        let restored =
          open_store-Restored now_ms s log r n f g healthy_open healthy
            (record { shut = unfold new_store in refl; interval = unfold new_store in interval }) hs
            h short small (unfold new_store in content) in
        let ran =
          session-Ran percent now_ms (open_store f g now_ms none s).0 log steps restored.stands
            restored.opened smooth in
        rw
          (
            main_launched files program arguments config (map event_of steps) launched,
            run_store_opened s (map event_of steps) restored.succeeded,
          )
          (record {
            store = _;
            left = refl;
            file = file-destroy _ ∙ ran.file;
            succeeded = refl;
            written = ap (λ (output : Bytes). banner ++ output) ran.written;
            silent = refl;
          })
