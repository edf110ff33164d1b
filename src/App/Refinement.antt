-- ===== src/App/Refinement.antt =====
-- Whole runs of the program against the reference.
use mini_kvstore.Prelude.{
  ℕ, ◌≡◌, refl, ap, ◌∙◌, true, false, none, some, Bool-cases, inl, inr, List, [], ◌∷◌, ◌++◌, map,
  Bytes, arith, if◌then◌else◌,
}
use mini_kvstore.Result.{succeed}
use mini_kvstore.Record.{Record}
use mini_kvstore.LruCache.{CacheStatistics}
use mini_kvstore.AppendOnlyStore.Recovery.Log.{encode_all}
use mini_kvstore.Status.{success}
use mini_kvstore.KeyValueStore.{Store, close}
use mini_kvstore.KeyValueStore.Sweep.{cleanup_expired}
use mini_kvstore.KeyValueStore.Represents.{Represents, Represents-later}
use mini_kvstore.KeyValueStore.Reads.{refreshed}
use mini_kvstore.KeyValueStore.Opened.{opened-cleanup_expired}
use mini_kvstore.KeyValueStore.Sweeping.{cleanup_expired_lem}
use mini_kvstore.CommandParser.{Command, parse}
use mini_kvstore.CommandParser.Requests.{Request, command_of, line_of, parse-line_of}
use mini_kvstore.App.{Surroundings, Event, clean, answer_command, answer, session}
use mini_kvstore.App.Printing.{prompt}
use mini_kvstore.App.Reference.{
  Step, asked, swept, event_of, reference, expected, final_log, IsSmooth, Smooth,
}
use mini_kvstore.App.Answering.{Matches, answer_get_lem, answer_exists_lem, answer_keys_lem}
use mini_kvstore.App.Answering.Writing.{answer_set_lem, answer_delete_lem}

close_opened :
    (s : Store)
    → s.opened ≡ true
    → close s
      ≡ (record s { opened = false; stop_requested = true; cleaner_running = false }, success)
unfolding close
close_opened s opened = ground arith

close_shut : (s : Store) → s.opened ≡ false → close s ≡ (s, success)
unfolding close
close_shut s shut = ground arith

close-Represents :
    (now_ms : ℕ) (s : Store) (log : List Record)
    → Represents now_ms s log
    → Represents now_ms (close s).0 log
close-Represents now_ms s log h = elim (Bool-cases s.opened) [
  | inl opened ↦
      rw (close_opened s opened)
        (refreshed now_ms s log h _ h.file refl h.cache_valid h.cache_agrees)
  | inr shut ↦ rw (close_shut s shut) h
]

opened-close : (s : Store) → (close s).0.opened ≡ false
unfolding close
opened-close s = ground arith

clean_running :
    (now_ms : ℕ) (s : Store)
    → s.cleaner_running ≡ true
    → clean now_ms s ≡ (cleanup_expired now_ms s).0
unfolding clean
clean_running now_ms s running = ground arith

clean_stopped : (now_ms : ℕ) (s : Store) → s.cleaner_running ≡ false → clean now_ms s ≡ s
unfolding clean
clean_stopped now_ms s stopped = ground arith

clean-Represents :
    (now_ms : ℕ) (s : Store) (log : List Record)
    → Represents now_ms s log
    → s.opened ≡ true
    → Represents now_ms (clean now_ms s) log × ((clean now_ms s).opened ≡ true)
clean-Represents now_ms s log h opened = elim (Bool-cases s.cleaner_running) [
  | inl running ↦
      rw (clean_running now_ms s running)
        ((cleanup_expired_lem now_ms s log h opened).0, opened-cleanup_expired now_ms s ∙ opened)
  | inr stopped ↦ rw (clean_stopped now_ms s stopped) (h, opened)
]

-- What a run is to leave: what was written, and the log in the data file.
pub record Ran (log : List Record) (output : Bytes) (outcome : Store × Bytes) : Type 0 where
  pub written : outcome.1 ≡ output
  pub file : outcome.0.storage.data_file ≡ some (encode_all log)

module _ (percent : CacheStatistics → Bytes) where
  answer_line :
      (w : Surroundings) (s : Store) (input : Bytes) (command : Command)
      → parse input ≡ succeed command
      → answer percent w s input ≡ answer_command percent w s command
  unfolding answer
  answer_line w s input command h = rw (h, answer) refl

  answer_command_lem :
      (clock : ℕ) (w : Surroundings) (s : Store) (log : List Record) (q : Request)
      → Represents clock s log
      → s.opened ≡ true
      → IsSmooth clock log w q
      → Matches w.now_ms (reference w.now_ms log q) (answer_command percent w s (command_of q))
  unfolding answer_command
  answer_command_lem clock w s log (Request.set key value none) h opened smooth =
      answer_set_lem w s log (Represents-later w.now_ms smooth.later smooth.word h) opened
        smooth.healthy key value none smooth.writable smooth.small smooth.room
  answer_command_lem clock w s log (Request.set key value (some seconds)) h opened smooth =
      answer_set_lem w s log (Represents-later w.now_ms smooth.later smooth.word h) opened
        smooth.healthy key value (some seconds) smooth.writable smooth.small smooth.room
  answer_command_lem clock w s log (Request.get key) h opened smooth =
      answer_get_lem w s log (Represents-later w.now_ms smooth.later smooth.word h) opened
        smooth.healthy key
  answer_command_lem clock w s log (Request.delete key) h opened smooth =
      answer_delete_lem w s log (Represents-later w.now_ms smooth.later smooth.word h) opened
        smooth.healthy key smooth.small smooth.room
  answer_command_lem clock w s log (Request.exists key) h opened smooth =
      answer_exists_lem w s log (Represents-later w.now_ms smooth.later smooth.word h) opened
        smooth.healthy key
  answer_command_lem clock w s log (Request.keys prefix) h opened smooth =
      answer_keys_lem w s log (Represents-later w.now_ms smooth.later smooth.word h) opened prefix
  answer_command_lem clock w s log Request.stats h opened smooth = absurd smooth.covered
  answer_command_lem clock w s log Request.compact h opened smooth = absurd smooth.covered
  answer_command_lem clock w s log Request.help h opened smooth = record {
    output = refl;
    goes_on = refl;
    opened = opened;
    stands = Represents-later w.now_ms smooth.later smooth.word h;
  }
  answer_command_lem clock w s log Request.exit h opened smooth = record {
    output = refl;
    goes_on = refl;
    opened = opened-close s;
    stands = close-Represents w.now_ms s log (Represents-later w.now_ms smooth.later smooth.word h);
  }

  answer_lem :
      (clock : ℕ) (w : Surroundings) (s : Store) (log : List Record) (q : Request)
      → Represents clock s log
      → s.opened ≡ true
      → IsSmooth clock log w q
      → Matches w.now_ms (reference w.now_ms log q) (answer percent w s (line_of q))
  answer_lem clock w s log q h opened smooth =
      rw (answer_line w s (line_of q) (command_of q) (parse-line_of q smooth.writable))
        (answer_command_lem clock w s log q h opened smooth)

  session_asked :
      (w : Surroundings) (s : Store) (q : Request) (rest : List Event)
      → session percent s (event_of (asked w q) ∷ rest) ≡ (
          let turn = answer percent w s (line_of q) in
          let next = session percent turn.store rest in
          if turn.goes_on
          then (next.0, prompt ++ turn.output ++ next.1)
          else (turn.store, prompt ++ turn.output))
  unfolding session
  session_asked w s q rest = refl

  session-swept :
      (now_ms : ℕ) (s : Store) (rest : List Event)
      → session percent s (event_of (swept now_ms) ∷ rest) ≡ session percent (clean now_ms s) rest
  unfolding session
  session-swept now_ms s rest = refl

  -- A request, from its answer and from the run behind it.
  asked_case :
      (w : Surroundings) (s : Store) (log : List Record) (q : Request) (rest : List Step)
      → Matches w.now_ms (reference w.now_ms log q) (answer percent w s (line_of q))
      → (Represents w.now_ms (answer percent w s (line_of q)).store (reference w.now_ms log q).log
          → (answer percent w s (line_of q)).store.opened ≡ true
          → Ran
              (final_log (reference w.now_ms log q).log rest)
              (expected (reference w.now_ms log q).log rest)
              (session percent (answer percent w s (line_of q)).store (map event_of rest)))
      → Ran
          (final_log log (asked w q ∷ rest))
          (expected log (asked w q ∷ rest))
          (session percent s (event_of (asked w q) ∷ map event_of rest))
  asked_case w s log q rest m next =
      rw (session_asked w s q (map event_of rest), m.goes_on)
        (elim (Bool-cases (reference w.now_ms log q).goes_on) [
          | inl on ↦
              let after = next m.stands (m.opened ∙ on) in
              rw on (record { written = rw (m.output, after.written) refl; file = after.file })
          | inr off ↦
              rw off (record {
                written = ap (λ (x : Bytes). prompt ++ x) m.output;
                file = m.stands.file;
              })
        ])

  -- On an open store that stands for a log, in a run of requests other than STATS and COMPACT, with
  -- rounds of the cleaner thread anywhere between them, in which the clock does not go back and
  -- stays below 2 ^ 63, no call of the operating system fails, the disk has room for the records,
  -- the log stays shorter than 2 ^ 64 bytes, and the times to live can be written: the program
  -- writes what the reference says, and the data file holds the log of the reference.
  pub session-Ran :
      (clock : ℕ) (s : Store) (log : List Record) (steps : List Step)
      → Represents clock s log
      → s.opened ≡ true
      → Smooth clock log steps
      → Ran (final_log log steps) (expected log steps) (session percent s (map event_of steps))
  session-Ran clock s log [] h opened smooth =
      unfold session in record { written = refl; file = (close-Represents clock s log h).file }
  session-Ran clock s log (swept now_ms ∷ rest) h opened (later, word, smooth) =
      let (stands, opened') =
        clean-Represents now_ms s log (Represents-later now_ms later word h) opened in
      rw (session-swept now_ms s (map event_of rest))
        (session-Ran now_ms (clean now_ms s) log rest stands opened' smooth)
  session-Ran clock s log (asked w q ∷ rest) h opened (one, smooth) =
      asked_case w s log q rest (answer_lem clock w s log q h opened one) (λ stands opened'.
        session-Ran w.now_ms _ (reference w.now_ms log q).log rest stands opened' smooth)
