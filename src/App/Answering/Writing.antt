-- ===== src/App/Answering/Writing.antt =====
-- The answers to DEL and SET against the reference.
use mini_kvstore.Prelude.{
  ℕ, ◌+◌, ◌^◌, ◌≤◌, ◌<◌, ◌≡◌, refl, ap, ◌∙◌, true, false, Option, none, some, Bool-cases, inl, inr,
  List, [], ◌∷◌, ◌++◌, Bytes, text, arith, if◌then◌else◌,
}
use mini_kvstore.Status.{Status, is_ok, success, not_found, to_string}
use mini_kvstore.Record.{Record}
use mini_kvstore.AppendOnlyStore.{IsHealthy, record_size}
use mini_kvstore.AppendOnlyStore.Recovery.Log.{log_size}
use mini_kvstore.KeyValueStore.{
  Store, set, remove, validate_key, validate_value, is_bad_ttl, expiry,
}
use mini_kvstore.KeyValueStore.Slots.{log_size-append}
use mini_kvstore.KeyValueStore.Represents.{Represents, view}
use mini_kvstore.KeyValueStore.Writes.{set_record}
use mini_kvstore.KeyValueStore.Setting.{IsAccepted, set-Represents, set_healthy}
use mini_kvstore.KeyValueStore.Removing.{delete_record, remove-Removal, remove_gone, remove_healthy}
use mini_kvstore.CommandParser.Requests.{Request, command_of, IsWritable}
use mini_kvstore.App.{Surroundings, Turn, reply, print_delete, answer_set, answer_delete}
use mini_kvstore.App.Printing.{line, error_line}
use mini_kvstore.App.Reference.{reference, said_presence, milliseconds, without}
use mini_kvstore.App.Answering.{Matches, refused_key, refused-Matches}

print_delete_missing : (st : Status) → st.code ≡ not_found → print_delete st ≡ line (text "0")
unfolding print_delete
print_delete_missing st h = rw (h, print_delete) refl

print_delete_done : print_delete success ≡ line (text "1")
unfolding print_delete
print_delete_done = refl

-- The turn behind a SET.
abbrev set_reply : Store × Status → Turn
set_reply (s, status) =
    reply s (line (if is_ok status then text "OK" else text "(error) " ++ to_string status))

answer_set_of :
    (w : Surroundings) (s : Store) (key value : Bytes) (ttl : Option ℕ)
    → answer_set w s (command_of (Request.set key value ttl))
      ≡ set_reply (set w.faults w.now_ms s key value (milliseconds ttl))
unfolding answer_set
answer_set_of w s key value none = refl
answer_set_of w s key value (some seconds) = refl

milliseconds_good :
    (key value : Bytes) (ttl : Option ℕ)
    → IsWritable (Request.set key value ttl)
    → is_bad_ttl (milliseconds ttl) ≡ false
milliseconds_good key value none h = refl
milliseconds_good key value (some seconds) h = ground (arith, h)

module _ (w : Surroundings) (s : Store) (log : List Record) (h : Represents w.now_ms s log)
    (opened : s.opened ≡ true) where
  module _ (key : Bytes) (wrong : is_ok (validate_key key) ≡ false) where
    refused_remove : remove w.faults w.now_ms s key ≡ (s, validate_key key)
    unfolding remove
    refused_remove = ground arith

    refused_set :
        (value : Bytes) (ttl : Option ℕ)
        → set w.faults w.now_ms s key value ttl ≡ (s, validate_key key)
    unfolding set
    refused_set value ttl = ground arith

    refused_answer_delete :
        answer_delete w s (command_of (Request.delete key))
        ≡ reply s (error_line (validate_key key))
    unfolding answer_delete print_delete
    refused_answer_delete = rw (refused_remove, wrong, refused_key key wrong) refl

    refused_set_reply :
        (value : Bytes) (ttl : Option ℕ)
        → set_reply (set w.faults w.now_ms s key value ttl)
          ≡ reply s (error_line (validate_key key))
    unfolding error_line
    refused_set_reply value ttl = rw (refused_set value ttl, wrong) refl

  refused_value :
      (key value : Bytes) (ttl : Option ℕ)
      → is_ok (validate_key key) ≡ true
      → is_ok (validate_value value) ≡ false
      → set_reply (set w.faults w.now_ms s key value ttl)
        ≡ reply s (error_line (validate_value value))
  unfolding set error_line
  refused_value key value ttl valid wrong = ground arith

  module _ (healthy : IsHealthy w.faults) where
    -- What `without` adds to the log is a delete record.
    module _ (key : Bytes) (valid : is_ok (validate_key key) ≡ true) where
      deleted :
          (said : Option Bytes)
          → view w.now_ms log key ≡ said
          → log_size (without said key log) < 2 ^ 64
          → log_size (without said key log) ≤ log_size log + w.faults.room
          → Matches w.now_ms
              (record { output = said_presence said; log = without said key log; goes_on = true })
              (answer_delete w s (command_of (Request.delete key)))
      unfolding answer_delete
      deleted none gone small room =
          let (code, kept, stands) = remove_gone w.now_ms s log h key opened valid w.faults gone in
          record {
            output = print_delete_missing _ code;
            goes_on = refl;
            opened = kept ∙ opened;
            stands = stands;
          }
      deleted (some value) there small room =
          let size = log_size-append log (delete_record key) in
          let ok =
            remove_healthy w.now_ms s log h key opened valid w.faults value there healthy
              (omega (arith, size, room)) in
          let removal =
            remove-Removal w.now_ms s log h key opened valid w.faults
              (omega (arith, size, small)) in
          elim (rw there at removal) [
            | inl (done, kept, stands) ↦ record {
              output = ap print_delete done ∙ print_delete_done;
              goes_on = refl;
              opened = kept ∙ opened;
              stands = stands;
            }
            | inr (failed, _, _, _, _, _) ↦ absurd (ground (arith, ok))
          ]

    pub answer_delete_lem :
        (key : Bytes)
        → log_size (reference w.now_ms log (Request.delete key)).log < 2 ^ 64
        → log_size (reference w.now_ms log (Request.delete key)).log ≤ log_size log + w.faults.room
        → Matches w.now_ms
            (reference w.now_ms log (Request.delete key))
            (answer_delete w s (command_of (Request.delete key)))
    answer_delete_lem key small room = elim (Bool-cases (is_ok (validate_key key))) [
      | inl valid ↦
          rw valid
            (deleted key valid (view w.now_ms log key) refl (rw valid at small) (rw valid at room))
      | inr wrong ↦ refused-Matches w s log h opened key wrong _ _ (refused_answer_delete key wrong)
    ]

    stored :
        (key value : Bytes) (ttl : Option ℕ)
        → IsAccepted s key value ttl
        → log_size (log ++ set_record key value (expiry w.now_ms ttl) ∷ []) < 2 ^ 64
        → log_size (log ++ set_record key value (expiry w.now_ms ttl) ∷ [])
          ≤ log_size log + w.faults.room
        → Matches w.now_ms
            (record {
              output = line (text "OK");
              log = log ++ set_record key value (expiry w.now_ms ttl) ∷ [];
              goes_on = true;
            })
            (set_reply (set w.faults w.now_ms s key value ttl))
    stored key value ttl accepted small room =
        let size = log_size-append log (set_record key value (expiry w.now_ms ttl)) in
        let room' : record_size (set_record key value (expiry w.now_ms ttl)) ≤ w.faults.room =
          omega (arith, size, room) in
        let small' : log_size log + record_size (set_record key value (expiry w.now_ms ttl))
            < 2 ^ 64 =
          omega (arith, size, small) in
        let (kept, stands) =
          set-Represents w.now_ms s log h key value ttl accepted w.faults healthy room' small' in
        record {
          output =
              ap
                (λ (st : Status).
                  line (if is_ok st then text "OK" else text "(error) " ++ to_string st))
                (set_healthy w.now_ms s log h key value ttl accepted w.faults healthy room' small');
          goes_on = refl;
          opened = kept ∙ opened;
          stands = stands;
        }

    pub answer_set_lem :
        (key value : Bytes) (ttl : Option ℕ)
        → IsWritable (Request.set key value ttl)
        → log_size (reference w.now_ms log (Request.set key value ttl)).log < 2 ^ 64
        → log_size (reference w.now_ms log (Request.set key value ttl)).log
          ≤ log_size log + w.faults.room
        → Matches w.now_ms
            (reference w.now_ms log (Request.set key value ttl))
            (answer_set w s (command_of (Request.set key value ttl)))
    answer_set_lem key value ttl writable small room =
        rw (answer_set_of w s key value ttl) (elim (Bool-cases (is_ok (validate_key key))) [
          | inl valid ↦ elim (Bool-cases (is_ok (validate_value value))) [
            | inl fits ↦
                let accepted : IsAccepted s key value (milliseconds ttl) = record {
                  opened = opened;
                  key_valid = valid;
                  value_valid = fits;
                  ttl_valid = milliseconds_good key value ttl writable;
                } in
                rw (valid, fits)
                  (stored key value (milliseconds ttl) accepted (rw (valid, fits) at small)
                    (rw (valid, fits) at room))
            | inr wrong ↦
                rw (valid, wrong, refused_value key value (milliseconds ttl) valid wrong)
                  (record { output = refl; goes_on = refl; opened = opened; stands = h })
          ]
          | inr wrong ↦
              refused-Matches w s log h opened key wrong _ _
                (refused_set_reply key wrong value (milliseconds ttl))
        ])
