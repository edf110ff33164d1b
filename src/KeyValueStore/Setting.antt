-- ===== src/KeyValueStore/Setting.antt =====
-- `set` as the client calls it, and `get` behind it.
use mini_kvstore.Prelude.{
  ℕ, ◌+◌, ◌^◌, ◌≤◌, ◌<◌, ◌≡◌, refl, ◌∙◌, true, false, Option, none, some, Bool-cases, inl, inr, ◌⊎◌,
  List, [], ◌∷◌, ◌++◌, Bytes, bytes_key, bytes_eq, arith, if◌then◌else◌, length,
}
use mini_kvstore.Status.{is_ok, success, closed, invalid_argument}
use mini_kvstore.Record.{Record, is_expired, maximum_key_size, maximum_value_size}
use mini_kvstore.AppendOnlyStore.{Faults, IsHealthy, record_size}
use mini_kvstore.AppendOnlyStore.Header.RoundTrip.{IsStorable}
use mini_kvstore.AppendOnlyStore.Recovery.Log.{log_size}
use mini_kvstore.KeyValueStore.{
  Store, set_locked, set, get, validate_key, validate_value, is_bad_ttl, expiry,
}
use mini_kvstore.KeyValueStore.Slots.{slot_at-append}
use mini_kvstore.KeyValueStore.Represents.{Represents, Represents-later, view}
use mini_kvstore.KeyValueStore.Reads.{Answers}
use mini_kvstore.KeyValueStore.Get.{get-Answers}
use mini_kvstore.KeyValueStore.Writes.{Written, set_record, set_locked_lem, set_locked_healthy}

pub valid_key_lem :
    (key : Bytes)
    → is_ok (validate_key key) ≡ true
    → (0 < length key) × (length key ≤ maximum_key_size)
unfolding validate_key
valid_key_lem key h = ground arith

valid_value_lem :
    (value : Bytes) → is_ok (validate_value value) ≡ true → length value ≤ maximum_value_size
unfolding validate_value
valid_value_lem value h = ground arith

expiry-lt : (now_ms : ℕ) (ttl : Option ℕ) → expiry now_ms ttl < 2 ^ 64
expiry-lt now_ms none = omega arith
expiry-lt now_ms (some count) = omega arith

-- The arguments that `set` accepts.
pub record IsAccepted (s : Store) (key value : Bytes) (ttl : Option ℕ) : Type 0 where
  pub opened : s.opened ≡ true
  pub key_valid : is_ok (validate_key key) ≡ true
  pub value_valid : is_ok (validate_value value) ≡ true
  pub ttl_valid : is_bad_ttl ttl ≡ false

-- What `set` accepts makes a record that the storage accepts.
pub accepted-IsStorable :
    (now_ms : ℕ) (s : Store) (key value : Bytes) (ttl : Option ℕ)
    → IsAccepted s key value ttl
    → IsStorable (set_record key value (expiry now_ms ttl))
accepted-IsStorable now_ms s key value ttl h = record {
  key_some = (valid_key_lem key h.key_valid).0;
  key_fits = (valid_key_lem key h.key_valid).1;
  value_fits = valid_value_lem value h.value_valid;
  tombstone = λ e. ground arith;
  expiry_word = expiry-lt now_ms ttl;
}

set_accepted :
    (f : Faults) (now_ms : ℕ) (s : Store) (key value : Bytes) (ttl : Option ℕ)
    → IsAccepted s key value ttl
    → set f now_ms s key value ttl ≡ set_locked f s key value (expiry now_ms ttl)
unfolding set
set_accepted f now_ms s key value ttl h =
    rw (h.opened, h.key_valid, h.value_valid, h.ttl_valid) refl

-- Either the store is open and the arguments of `set` are accepted, or `set` changes nothing, and
-- returns CLOSED if the store is not open and INVALID_ARGUMENT if it is.
pub set_cases :
    (f : Faults) (now_ms : ℕ) (s : Store) (key value : Bytes) (ttl : Option ℕ)
    → IsAccepted s key value ttl
      ⊎ (((set f now_ms s key value ttl).0 ≡ s)
          × ((set f now_ms s key value ttl).1.code
              ≡ (if s.opened then invalid_argument else closed)))
unfolding set validate_key validate_value
set_cases f now_ms s key value ttl = elim (Bool-cases s.opened) [
  | inl opened ↦ elim (Bool-cases (is_ok (validate_key key))) [
    | inl key_ok ↦ elim (Bool-cases (is_ok (validate_value value))) [
      | inl value_ok ↦ elim (Bool-cases (is_bad_ttl ttl)) [
        | inl bad ↦ inr (ground arith, ground arith)
        | inr good ↦ inl (record {
          opened = opened;
          key_valid = key_ok;
          value_valid = value_ok;
          ttl_valid = good;
        })
      ]
      | inr bad ↦ inr (ground arith, ground arith)
    ]
    | inr bad ↦ inr (ground arith, ground arith)
  ]
  | inr shut ↦ inr (ground arith, ground arith)
]

module _ (now_ms : ℕ) (s : Store) (log : List Record) (h : Represents now_ms s log)
    (key value : Bytes) (ttl : Option ℕ) (accepted : IsAccepted s key value ttl) (f : Faults) where
  abbrev written : Record
  written = set_record key value (expiry now_ms ttl)

  -- On a store that stands for a log, where the log with the record is shorter than 2 ^ 64 bytes,
  -- whatever calls of the operating system fail in a `set` whose arguments are accepted: either
  -- it returns success and the store stands for the log with the record behind it, or it returns
  -- an error and the store has changed in nothing but its files, in which the first bytes of the
  -- record, from none to all, stand behind the log.
  pub set-Written :
      log_size log + record_size written < 2 ^ 64
      → Written now_ms s log written (set f now_ms s key value ttl)
  set-Written small = rw (set_accepted f now_ms s key value ttl accepted) (
      set_locked_lem now_ms s log h key value (expiry now_ms ttl)
        (accepted-IsStorable now_ms s key value ttl accepted) f accepted.opened small)

  module _ (healthy : IsHealthy f) (room : record_size written ≤ f.room)
      (small : log_size log + record_size written < 2 ^ 64) where
    pub set_healthy : (set f now_ms s key value ttl).1 ≡ success
    set_healthy = rw (set_accepted f now_ms s key value ttl accepted) (
        set_locked_healthy now_ms s log h key value (expiry now_ms ttl)
          (accepted-IsStorable now_ms s key value ttl accepted) f accepted.opened healthy room)

    -- The store behind a `set` that nothing keeps from success.
    pub set-Represents :
        ((set f now_ms s key value ttl).0.opened ≡ s.opened)
        × Represents now_ms (set f now_ms s key value ttl).0 (log ++ written ∷ [])
    set-Represents = elim (set-Written small) [
      | inl (_, opened, after) ↦ (opened, after)
      | inr (wrong, _, _, _, _, _) ↦ absurd (ground (arith, set_healthy))
    ]

    -- What the log says once it has the record.
    view_set :
        (later : ℕ) (k : Bytes)
        → view later (log ++ written ∷ []) k ≡ (
            if bytes_eq key k
            then (if is_expired (expiry now_ms ttl) later then none else some value)
            else view later log k)
    view_set later k = elim (Bool-cases (bytes_eq key k)) [
      | inl same ↦ rw (slot_at-append k log written, same) refl
      | inr other ↦ rw (slot_at-append k log written, other) refl
    ]

-- On a store that stands for a log, where no call of the operating system fails, there is room on
-- the disk, the log with the record is shorter than 2 ^ 64 bytes, and the arguments of a `set`
-- are accepted: a `get` of any valid key at any later time below 2 ^ 63 returns, for the key that
-- was set, the value, or NOT_FOUND if the expiry has been reached, and for any other key what the
-- log before the `set` gives it then.
pub get-set :
    (now_ms later : ℕ) (s : Store) (log : List Record)
    → Represents now_ms s log
    → (key value : Bytes) (ttl : Option ℕ) → IsAccepted s key value ttl
    → (f g : Faults) → IsHealthy f
    → IsHealthy g
    → record_size (set_record key value (expiry now_ms ttl)) ≤ f.room
    → log_size log + record_size (set_record key value (expiry now_ms ttl)) < 2 ^ 64
    → now_ms ≤ later
    → later < 2 ^ 63
    → (k : Bytes) → is_ok (validate_key k) ≡ true
    → Answers
        (if bytes_eq key k
          then (if is_expired (expiry now_ms ttl) later then none else some value)
          else view later log k)
        (get g later (set f now_ms s key value ttl).0 k).1
get-set now_ms later s log h key value ttl accepted f g healthy healthy_read room small after word k
      valid =
    let (opened, stands) =
      set-Represents now_ms s log h key value ttl accepted f healthy room small in
    rw (← view_set now_ms s log h key value ttl accepted f healthy room small later k) (
      get-Answers later g _ _ (Represents-later later after word stands) k
        (opened ∙ accepted.opened) valid healthy_read)
