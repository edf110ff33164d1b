-- ===== src/App/Reference.antt =====
-- What the program is to answer, said with a log alone: no index, no cache, no file.
use mini_kvstore.Prelude.{
  ℕ, ◌+◌, ◌*◌, ◌^◌, ◌≤◌, ◌<◌, Bool, true, false, Bytes, text, List, [], ◌∷◌, ◌++◌, if◌then◌else◌,
  Option, none, some,
}
use mini_kvstore.Status.{Status, is_ok}
use mini_kvstore.Record.{Record}
use mini_kvstore.AppendOnlyStore.{IsHealthy}
use mini_kvstore.AppendOnlyStore.Recovery.Log.{log_size}
use mini_kvstore.KeyValueStore.{validate_key, validate_value, expiry}
use mini_kvstore.KeyValueStore.Represents.{view}
use mini_kvstore.KeyValueStore.Listing.{listing}
use mini_kvstore.KeyValueStore.Writes.{set_record}
use mini_kvstore.KeyValueStore.Removing.{delete_record}
use mini_kvstore.CommandParser.Requests.{Request, IsWritable, line_of}
use mini_kvstore.App.{Surroundings, Event, entered, cleaned}
use mini_kvstore.App.Printing.{print_keys, line, error_line, print_help, prompt}

-- The answer to a request: what is written, the log behind it, and whether the program goes on.
pub record Reply : Type 0 where
  pub output : Bytes
  pub log : List Record
  pub goes_on : Bool

abbrev said : Bytes → List Record → Reply
said output log = record { output = output; log = log; goes_on = true }

-- The requests that the reference answers.
abbrev pub IsCovered : Request → Type 0
IsCovered Request.stats = ⊥
IsCovered Request.compact = ⊥
IsCovered _ = Unit

abbrev pub milliseconds : Option ℕ → Option ℕ
milliseconds none = none
milliseconds (some seconds) = some (seconds * 1000)

-- A request with a key: refused where the key is not valid.
abbrev pub with_valid : Status → List Record → Reply → Reply
with_valid st log r = if is_ok st then r else said (error_line st) log

abbrev pub said_value : Option Bytes → Bytes
said_value none = line (text "(nil)")
said_value (some value) = line value

abbrev pub said_presence : Option Bytes → Bytes
said_presence none = line (text "0")
said_presence (some value) = line (text "1")

abbrev pub without : Option Bytes → Bytes → List Record → List Record
without none key log = log
without (some value) key log = log ++ delete_record key ∷ []

abbrev pub reference : ℕ → List Record → Request → Reply
reference now_ms log (Request.set key value ttl) = with_valid (validate_key key) log (
    with_valid (validate_value value) log (
      said (line (text "OK"))
        (log ++ set_record key value (expiry now_ms (milliseconds ttl)) ∷ [])))
reference now_ms log (Request.get key) =
    with_valid (validate_key key) log (said (said_value (view now_ms log key)) log)
reference now_ms log (Request.delete key) =
    with_valid (validate_key key) log
      (said (said_presence (view now_ms log key)) (without (view now_ms log key) key log))
reference now_ms log (Request.exists key) =
    with_valid (validate_key key) log (said (said_presence (view now_ms log key)) log)
reference now_ms log (Request.keys prefix) = said (print_keys (listing now_ms log prefix)) log
reference now_ms log Request.exit = record {
  output = line (text "Bye.");
  log = log;
  goes_on = false;
}
reference now_ms log Request.help = said print_help log
reference now_ms log _ = said [] log

-- A run: requests, and rounds of the cleaner thread between them.
pub data Step : Type 0 where
  asked : Surroundings → Request → Step
  swept : ℕ → Step

abbrev pub event_of : Step → Event
event_of (asked w q) = entered w (line_of q)
event_of (swept now_ms) = cleaned now_ms

-- A request that meets no trouble: the clock does not go back, no call of the operating system fails, the
-- time to live can be written, and the disk and the numbers of 64 bits have room for the log behind it.
pub record IsSmooth (clock : ℕ) (log : List Record) (w : Surroundings) (q : Request) : Type 0 where
  pub later : clock ≤ w.now_ms
  pub word : w.now_ms < 2 ^ 63
  pub healthy : IsHealthy w.faults
  pub writable : IsWritable q
  pub covered : IsCovered q
  pub small : log_size (reference w.now_ms log q).log < 2 ^ 64
  pub room : log_size (reference w.now_ms log q).log ≤ log_size log + w.faults.room

abbrev pub Smooth : ℕ → List Record → List Step → Type 0
Smooth clock log [] = Unit
Smooth clock log (asked w q ∷ rest) =
    IsSmooth clock log w q × Smooth w.now_ms (reference w.now_ms log q).log rest
Smooth clock log (swept now_ms ∷ rest) =
    (clock ≤ now_ms) × (now_ms < 2 ^ 63) × Smooth now_ms log rest

-- What is written in a run, up to EXIT or the end of the lines.
abbrev pub expected : List Record → List Step → Bytes
expected log [] = prompt ++ line []
expected log (swept now_ms ∷ rest) = expected log rest
expected log (asked w q ∷ rest) =
    let r = reference w.now_ms log q in
    let output = expected r.log rest in
    if r.goes_on then prompt ++ r.output ++ output else prompt ++ r.output

-- The log behind a run.
abbrev pub final_log : List Record → List Step → List Record
final_log log [] = log
final_log log (swept now_ms ∷ rest) = final_log log rest
final_log log (asked w q ∷ rest) =
    let r = reference w.now_ms log q in
    let log' = final_log r.log rest in if r.goes_on then log' else r.log
