-- ===== src/AppendOnlyStore/Files.antt =====
-- The file system as src/AppendOnlyStore.cpp uses it: `std::fstream`, `std::ofstream` and
-- `std::filesystem` on the data file and on the temporary file of a compaction, and the two
-- functions that open the data file.
use mini_kvstore.Prelude.{
  ℕ, ◌-◌, ◌≡◌, arith, Bool, true, false, ◌&&◌, Bytes, text, [], ◌++◌, length, take, leb,
  if◌then◌else◌, Option, none, some,
}
use mini_kvstore.Status.{Status, success, io_error_status}

-- Which of the calls of one `ensureOpenLocked` fail.
pub record OpenFaults : Type 0 where
  pub create_directories_fails : Bool
  pub create_fails : Bool
  pub open_fails : Bool
  pub message : Bytes

-- What the operating system does in one operation: `first` and `again` are for its first
-- `ensureOpenLocked` and for `reopenLocked`; `flushed` is how many of the bytes that were
-- written reach the file when the flush behind them fails; `room` is how many bytes can be written, and
-- `read_limit` how many can be read (`none` for all); `message`
-- is the text of an error code.
pub record Faults : Type 0 where
  pub first : OpenFaults
  pub again : OpenFaults
  pub seek_fails : Bool
  pub flush_fails : Bool
  pub flushed : ℕ
  pub size_fails : Bool
  pub resize_fails : Bool
  pub temporary_fails : Bool
  pub remove_fails : Bool
  pub rename_fails : Bool
  pub room : ℕ
  pub read_limit : Option ℕ
  pub message : Bytes

pub record Storage : Type 0 where
  pub data_path : Bytes
  pub has_parent : Bool
  pub is_open : Bool
  pub data_file : Option Bytes
  pub temporary_file : Option Bytes

-- What the file system has at a path: whether the path has a parent directory, the file, and the
-- temporary file beside it.
pub record Disk : Type 0 where
  pub has_parent : Bool
  pub data_file : Option Bytes
  pub temporary_file : Option Bytes

-- The constructor of `AppendOnlyStore`, over what the file system has at the path.
abbrev pub new_storage : Bytes → Disk → Storage
new_storage data_path disk = record {
  data_path = data_path;
  has_parent = disk.has_parent;
  is_open = false;
  data_file = disk.data_file;
  temporary_file = disk.temporary_file;
}

-- The destructor, which closes the stream.
abbrev pub close_storage : Storage → Storage
close_storage s = record s { is_open = false }

-- Calls of the operating system that all succeed; `room` says how much can be written.
pub record IsHealthy (f : Faults) : Type 0 where
  pub directories : f.first.create_directories_fails ≡ false
  pub create : f.first.create_fails ≡ false
  pub open_first : f.first.open_fails ≡ false
  pub directories_again : f.again.create_directories_fails ≡ false
  pub create_again : f.again.create_fails ≡ false
  pub open_again : f.again.open_fails ≡ false
  pub seek : f.seek_fails ≡ false
  pub flush : f.flush_fails ≡ false
  pub size : f.size_fails ≡ false
  pub resize : f.resize_fails ≡ false
  pub temporary : f.temporary_fails ≡ false
  pub rename : f.rename_fails ≡ false
  pub read : f.read_limit ≡ none

-- A `std::ostream` on a file: what the file holds, the room that is left, and `good()`.
pub record Output : Type 0 where
  pub content : Bytes
  pub room : ℕ
  pub good : Bool

-- output.write(bytes.data(), bytes.size()). A stream that is not good writes nothing; one that runs
-- out of room writes a part.
unfoldable pub write : Output → Bytes → Output
write o bytes =
    if o.good
    then (if leb (length bytes) o.room
        then record { content = o.content ++ bytes; room = o.room - length bytes; good = true }
        else record { content = o.content ++ take o.room bytes; room = 0; good = false })
    else o

-- The content of the data file that the stream reads.
abbrev pub data_bytes : Storage → Bytes
data_bytes s = elim s.data_file [ none ↦ [] | some content ↦ content ]

unfoldable pub readable : Faults → Bytes → Bytes
readable f content = elim f.read_limit [ none ↦ content | some limit ↦ take limit content ]

-- `exists(dataPath_)`, and the `std::ofstream` that creates the file if it does not exist.
abbrev pub created : Storage → Storage
created s = record s { data_file = some (data_bytes s) }

abbrev pub is_missing : Storage → Bool
is_missing s = elim s.data_file [ none ↦ true | some content ↦ false ]

-- The data file after a successful `ensureOpenLocked`: created if it is missing and not yet open.
abbrev pub opened_file : Storage → Option Bytes
opened_file s = if s.is_open then s.data_file else some (data_bytes s)

unfoldable pub ensure_open_locked : OpenFaults → Storage → Storage × Status
ensure_open_locked f s =
    if s.is_open
    then (s, success)
    else if s.has_parent && f.create_directories_fails
    then (s, io_error_status (text "failed to create data directory: " ++ f.message))
    else if is_missing s && f.create_fails
    then (s, io_error_status (text "failed to create data file: " ++ s.data_path))
    else if f.open_fails
    then (created s, io_error_status (text "failed to open data file: " ++ s.data_path))
    else (record (created s) { is_open = true }, success)

unfoldable pub reopen_locked : OpenFaults → Storage → Storage × Status
unfolding ensure_open_locked
reopen_locked f s = ensure_open_locked f (record s { is_open = false })

-- Where all calls succeed, the data file is open afterwards and holds what it held.
pub ensure_open_locked_lem :
    (f : Faults) (s : Storage)
    → IsHealthy f
    → ensure_open_locked f.first s
      ≡ (record s { is_open = true; data_file = opened_file s }, success)
unfolding ensure_open_locked
ensure_open_locked_lem f s h = ground arith

pub reopen_locked_lem :
    (f : Faults) (s : Storage)
    → IsHealthy f
    → reopen_locked f.again s
      ≡ (record s { is_open = true; data_file = some (data_bytes s) }, success)
unfolding reopen_locked
reopen_locked_lem f s h = ground arith
