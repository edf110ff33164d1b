-- ===== src/App/Answering.antt =====
-- The answers to GET, EXISTS and KEYS against the reference, and in Writing those to DEL and SET.
pub mod Writing
use mini_kvstore.Prelude.{
  ℕ, ◌+◌, ◌^◌, ◌≤◌, ◌<◌, ◌≡◌, refl, ap, ◌∙◌, true, false, Option, none, some, Bool-cases, inl, inr,
  List, [], ◌∷◌, ◌++◌, Bytes, text, arith, if◌then◌else◌,
}
use mini_kvstore.Status.{Status, is_ok, success, not_found, to_string}
use mini_kvstore.Result.{Result, succeed, fail}
use mini_kvstore.Record.{Record}
use mini_kvstore.AppendOnlyStore.{IsHealthy, record_size}
use mini_kvstore.AppendOnlyStore.Recovery.Log.{log_size}
use mini_kvstore.KeyValueStore.{
  Store, get, set, remove, exists, validate_key, validate_value, is_not_found, is_bad_ttl, expiry,
}
use mini_kvstore.KeyValueStore.Slots.{log_size-append}
use mini_kvstore.KeyValueStore.Represents.{Represents, view}
use mini_kvstore.KeyValueStore.Reads.{Answers}
use mini_kvstore.KeyValueStore.Get.{get-Represents, get-Answers}
use mini_kvstore.KeyValueStore.Exists.{exists_lem, code_not_found}
use mini_kvstore.KeyValueStore.Opened.{opened-get, opened-exists, opened-keys}
use mini_kvstore.KeyValueStore.Sweep.{keys}
use mini_kvstore.KeyValueStore.Keys.{keys_lem}
use mini_kvstore.KeyValueStore.Listing.{keys_listing}
use mini_kvstore.KeyValueStore.Sweeping.{is_some}
use mini_kvstore.KeyValueStore.Writes.{set_record}
use mini_kvstore.KeyValueStore.Setting.{IsAccepted, set-Represents, set_healthy}
use mini_kvstore.KeyValueStore.Removing.{delete_record, remove-Removal, remove_gone, remove_healthy}
use mini_kvstore.CommandParser.Requests.{Request, command_of, IsWritable}
use mini_kvstore.App.{
  Surroundings, Turn, reply, print_get, print_exists, print_delete, answer_set, answer_get,
  answer_delete, answer_exists, answer_keys,
}
use mini_kvstore.App.Printing.{print_keys, line, error_line}
use mini_kvstore.App.Reference.{
  Reply, reference, said_value, said_presence, milliseconds, with_valid, without,
}

-- The turn writes and leaves what the reply says.
pub record Matches (now_ms : ℕ) (r : Reply) (t : Turn) : Type 0 where
  pub output : t.output ≡ r.output
  pub goes_on : t.goes_on ≡ r.goes_on
  pub opened : t.store.opened ≡ r.goes_on
  pub stands : Represents now_ms t.store r.log

pub refused_key :
    (key : Bytes) → is_ok (validate_key key) ≡ false → is_not_found (validate_key key) ≡ false
unfolding validate_key
refused_key key h = ground arith

-- What is written of a result.
print_get-Answers :
    (said : Option Bytes) (result : Result Bytes)
    → Answers said result
    → print_get result ≡ said_value said
unfolding print_get
print_get-Answers (some value) result h = rw h refl
print_get-Answers none (succeed value) h = absurd h
print_get-Answers none (fail st) h = rw (code_not_found st h) refl

print_exists_lem :
    (said : Option Bytes) → print_exists (succeed (is_some said)) ≡ said_presence said
unfolding print_exists
print_exists_lem none = refl
print_exists_lem (some value) = refl

module _ (w : Surroundings) (s : Store) (log : List Record) (h : Represents w.now_ms s log)
    (opened : s.opened ≡ true) where
  module _ (key : Bytes) (wrong : is_ok (validate_key key) ≡ false) where
    refused_get : get w.faults w.now_ms s key ≡ (s, fail (validate_key key))
    unfolding get
    refused_get = ground arith

    refused_exists : exists w.faults w.now_ms s key ≡ (s, fail (validate_key key))
    unfolding exists
    refused_exists = ground (arith, refused_get, refused_key key wrong)

    -- A request that is refused for its key.
    pub refused-Matches :
        (r : Reply) (t : Turn)
        → t ≡ reply s (error_line (validate_key key))
        → Matches w.now_ms (with_valid (validate_key key) log r) t
    refused-Matches r t same =
        rw (wrong, same) (record { output = refl; goes_on = refl; opened = opened; stands = h })

    refused_answer_get :
        answer_get w s (command_of (Request.get key)) ≡ reply s (error_line (validate_key key))
    unfolding answer_get print_get
    refused_answer_get = rw (refused_get, refused_key key wrong) refl

    refused_answer_exists :
        answer_exists w s (command_of (Request.exists key))
        ≡ reply s (error_line (validate_key key))
    unfolding answer_exists print_exists error_line
    refused_answer_exists = rw refused_exists refl

  module _ (healthy : IsHealthy w.faults) where
    pub answer_get_lem :
        (key : Bytes)
        → Matches w.now_ms
            (reference w.now_ms log (Request.get key))
            (answer_get w s (command_of (Request.get key)))
    unfolding answer_get
    answer_get_lem key = elim (Bool-cases (is_ok (validate_key key))) [
      | inl valid ↦ rw valid (record {
        output =
            print_get-Answers (view w.now_ms log key) _
              (get-Answers w.now_ms w.faults log s h key opened valid healthy);
        goes_on = refl;
        opened = opened-get w.faults w.now_ms s key ∙ opened;
        stands = get-Represents w.now_ms w.faults log s h key;
      })
      | inr wrong ↦ refused-Matches key wrong _ _ (refused_answer_get key wrong)
    ]

    pub answer_exists_lem :
        (key : Bytes)
        → Matches w.now_ms
            (reference w.now_ms log (Request.exists key))
            (answer_exists w s (command_of (Request.exists key)))
    unfolding answer_exists
    answer_exists_lem key = elim (Bool-cases (is_ok (validate_key key))) [
      | inl valid ↦
          let (stands, answer) = exists_lem w.now_ms w.faults log s h key opened valid healthy in
          rw valid (record {
            output = rw answer (print_exists_lem (view w.now_ms log key));
            goes_on = refl;
            opened = opened-exists w.faults w.now_ms s key ∙ opened;
            stands = stands;
          })
      | inr wrong ↦ refused-Matches key wrong _ _ (refused_answer_exists key wrong)
    ]

  keys_turn :
      (prefix : Bytes) (keys_found : List Bytes)
      → (keys w.now_ms s prefix).1 ≡ succeed keys_found
      → answer_keys w s (command_of (Request.keys prefix))
        ≡ reply (keys w.now_ms s prefix).0 (print_keys keys_found)
  unfolding answer_keys
  keys_turn prefix keys_found e = rw e refl

  pub answer_keys_lem :
      (prefix : Bytes)
      → Matches w.now_ms
          (reference w.now_ms log (Request.keys prefix))
          (answer_keys w s (command_of (Request.keys prefix)))
  answer_keys_lem prefix =
      rw (keys_turn prefix _ (keys_listing w.now_ms s log prefix h opened)) (record {
        output = refl;
        goes_on = refl;
        opened = opened-keys w.now_ms s prefix opened ∙ opened;
        stands = (keys_lem w.now_ms s log h opened prefix).stands;
      })
