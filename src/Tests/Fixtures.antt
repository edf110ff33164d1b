-- ===== src/Tests/Fixtures.antt =====
-- A file system on which every call succeeds, one whose disk is full, and a store with no records.
use mini_kvstore.Prelude.{ℕ, refl, true, false, none, some, [], Bytes, bytes_key, text, arith}
use mini_kvstore.UnorderedMap.{find}
use mini_kvstore.LruCache
use mini_kvstore.LruCache.Valid.{init-IsValid}
use mini_kvstore.AppendOnlyStore.{OpenFaults, Faults, IsHealthy, Storage}
use mini_kvstore.KeyValueStore.{Store}
use mini_kvstore.KeyValueStore.Slots.{slot_from}
use mini_kvstore.KeyValueStore.Represents.{Represents}

abbrev pub no_open_faults : OpenFaults
no_open_faults = record {
  create_directories_fails = false;
  create_fails = false;
  open_fails = false;
  message = [];
}

-- All calls succeed, and `room` bytes can be written.
abbrev pub disk : ℕ → Faults
disk room = record {
  first = no_open_faults;
  again = no_open_faults;
  seek_fails = false;
  flush_fails = false;
  flushed = 0;
  size_fails = false;
  resize_fails = false;
  temporary_fails = false;
  remove_fails = false;
  rename_fails = false;
  room = room;
  read_limit = none;
  message = [];
}

pub disk-IsHealthy : (room : ℕ) → IsHealthy (disk room)
disk-IsHealthy room = record {
  directories = refl;
  create = refl;
  open_first = refl;
  directories_again = refl;
  create_again = refl;
  open_again = refl;
  seek = refl;
  flush = refl;
  size = refl;
  resize = refl;
  temporary = refl;
  rename = refl;
  read = refl;
}

abbrev pub storage_of : Bytes → Storage
storage_of content = record {
  data_path = text "data.mkv";
  has_parent = false;
  is_open = false;
  data_file = some content;
  temporary_file = none;
}

-- A store over a data file, before `open`.
abbrev pub shut_store : Bytes → Store
shut_store content = record {
  config = record {
    data_file = text "data.mkv";
    cache_capacity = 2;
    cleanup_interval = 1000;
    start_background_cleaner = false;
  };
  storage = storage_of content;
  cache = LruCache.init 2;
  index = [];
  opened = false;
  stop_requested = false;
  cleaner_running = false;
  get_operations = 0;
  set_operations = 0;
  delete_operations = 0;
  expired_keys = 0;
  compactions = 0;
  recovered_records = 0;
  truncated_tail_bytes = 0;
}

abbrev pub empty_store : Store
empty_store = record (shut_store []) { opened = true }

pub empty_store-Represents : (now_ms : ℕ) → Represents now_ms empty_store []
unfolding LruCache.init find slot_from
empty_store-Represents now_ms = record {
  file = refl;
  storable = tt;
  small = omega arith;
  index_map = tt;
  index_agrees = λ k. tt;
  cache_valid = init-IsValid 2;
  cache_agrees = λ k v p. ground (arith, p);
}
