-- ===== src/CommandParser/Understood.antt =====
-- What `parse` makes of a line, whatever it is.
use mini_kvstore.Prelude.{
  ℕ, ◌≡◌, refl, Bool, true, false, Bytes, text, bytes_eq, bytes_eq_iff, List, [], ◌∷◌, length, some,
  arith, if◌then◌else◌, Bool-cases, inl, inr, ◌==◌, ◌||◌, ◌⊎◌, ltb,
}
use mini_kvstore.Status.{Status, invalid_argument}
use mini_kvstore.Result.{Result, succeed, fail, Result-cases}
use mini_kvstore.CommandParser.{
  Command, CommandType, uppercase, parse_ttl, require_size, parse_set, parse_key, parse_keys,
  parse_bare, parse_named, parse,
}
use mini_kvstore.CommandParser.Tokens.{Tokenizer, step, run, finish, initial, tokenize}
use mini_kvstore.CommandParser.Requests.{parse_tokens}
use mini_kvstore.CommandParser.Says.{
  with_key, setting, Says, says_set, says_set_ttl, says_get, says_del, says_delete, says_exists,
  says_keys, says_keys_with, says_stats, says_compact, says_help, says_exit, says_quit, Said,
  parse-Says,
}

-- The command that the line says, or INVALID_ARGUMENT for a line that says none.
pub data Understood (input : Bytes) : Result Command → Type 0 where
  said : {command : Command} → Said input command → Understood input (succeed command)
  refused :
      {st : Status}
      → st.code ≡ invalid_argument
      → ¬ ((command : Command) × Said input command)
      → Understood input (fail st)

-- A refusal in the tokenizer.
finish_refused : (t : Tokenizer) (st : Status) → finish t ≡ fail st → st.code ≡ invalid_argument
unfolding finish
finish_refused t st h = ground (arith, h)

step_refused :
    (t : Tokenizer) (c : ℕ) (st : Status) → step t c ≡ fail st → st.code ≡ invalid_argument
unfolding step
step_refused t c st h = ground (arith, h)

run_refused :
    (t : Tokenizer) (input : Bytes) (st : Status)
    → run t input ≡ fail st
    → st.code ≡ invalid_argument
unfolding run
run_refused t [] st h = finish_refused t st h
run_refused t (c ∷ cs) st h = elim (Result-cases (step t c)) [
  | inl (t', done) ↦ run_refused t' cs st (rw (done, run) at h)
  | inr (st', failed) ↦ ground (arith, step_refused t c st' failed, h)
]

-- A command that the tokens say, or INVALID_ARGUMENT.
data Meant (tokens : List Bytes) : Result Command → Type 0 where
  meant : {command : Command} → Says tokens command → Meant tokens (succeed command)
  wrong : {st : Status} → st.code ≡ invalid_argument → Meant tokens (fail st)

if_cases :
    {tokens : List Bytes} (b : Bool) {x y : Result Command}
    → (b ≡ true → Meant tokens x)
    → Meant tokens y
    → Meant tokens (if b then x else y)
if_cases true hx hy = hx refl
if_cases false hx hy = hy

-- The commands with one key.
key-Meant :
    (type : CommandType) (usage name : Bytes) (rest : List Bytes)
    → ((key : Bytes) → Says (name ∷ key ∷ []) (with_key type key))
    → Meant (name ∷ rest) (parse_key type usage (name ∷ rest))
unfolding parse_key require_size
key-Meant type usage name [] say = wrong refl
key-Meant type usage name (key ∷ []) say = meant (say key)
key-Meant type usage name (b ∷ c ∷ rest) say =
    let long : (length (name ∷ b ∷ c ∷ rest) == 2) ≡ false = ground arith in rw long (wrong refl)

-- The commands with no argument.
bare-Meant :
    (type : CommandType) (usage name : Bytes) (rest : List Bytes)
    → Says (name ∷ []) (with_key type [])
    → Meant (name ∷ rest) (parse_bare type usage (name ∷ rest))
unfolding parse_bare require_size
bare-Meant type usage name [] says = meant says
bare-Meant type usage name (b ∷ rest) says =
    let long : (length (name ∷ b ∷ rest) == 1) ≡ false = ground arith in rw long (wrong refl)

keys-Meant :
    (name : Bytes) (rest : List Bytes)
    → uppercase name ≡ text "KEYS"
    → Meant (name ∷ rest) (parse_keys (name ∷ rest))
unfolding parse_keys
keys-Meant name [] upper = meant (says_keys name upper)
keys-Meant name (prefix ∷ []) upper = meant (says_keys_with name prefix upper)
keys-Meant name (b ∷ c ∷ rest) upper =
    let long : ltb 2 (length (name ∷ b ∷ c ∷ rest)) ≡ true = ground arith in rw long (wrong refl)

ttl_refused :
    (argument : Bytes) (st : Status) → parse_ttl argument ≡ fail st → st.code ≡ invalid_argument
unfolding parse_ttl
ttl_refused argument st h = ground (arith, h)

ttl-Meant :
    (name key value word seconds : Bytes)
    → uppercase name ≡ text "SET"
    → uppercase word ≡ text "TTL"
    → Meant (name ∷ key ∷ value ∷ word ∷ seconds ∷ []) (elim (parse_ttl seconds) [
      | fail st ↦ fail st
      | succeed ttl ↦ succeed (setting key value (some ttl))
    ])
ttl-Meant name key value word seconds upper is_ttl = elim (Result-cases (parse_ttl seconds)) [
  | inl (ttl, read) ↦
      rw read (meant (says_set_ttl name key value word seconds ttl upper is_ttl read))
  | inr (st, failed) ↦ rw failed (wrong (ttl_refused seconds st failed))
]

set-Meant :
    (name : Bytes) (rest : List Bytes)
    → uppercase name ≡ text "SET"
    → Meant (name ∷ rest) (parse_set (name ∷ rest))
unfolding parse_set
set-Meant name [] upper = wrong refl
set-Meant name (a ∷ []) upper = wrong refl
set-Meant name (a ∷ b ∷ []) upper = meant (says_set name a b upper)
set-Meant name (a ∷ b ∷ c ∷ []) upper = wrong refl
set-Meant name (a ∷ b ∷ c ∷ d ∷ []) upper =
    elim (Bool-cases (bytes_eq (uppercase c) (text "TTL"))) [
      | inl same ↦
          rw same (ttl-Meant name a b c d upper ((bytes_eq_iff (uppercase c) (text "TTL")).0 same))
      | inr other ↦ rw other (wrong refl)
    ]
set-Meant name (a ∷ b ∷ c ∷ d ∷ e ∷ rest) upper =
    let long : (length (name ∷ a ∷ b ∷ c ∷ d ∷ e ∷ rest) == 3) ≡ false = ground arith in
    let longer : (length (name ∷ a ∷ b ∷ c ∷ d ∷ e ∷ rest) == 5) ≡ false = ground arith in
    rw (long, longer) (wrong refl)

-- The test for one of the names.
named : (name word : Bytes) → bytes_eq (uppercase name) word ≡ true → uppercase name ≡ word
named name word same = (bytes_eq_iff (uppercase name) word).0 same

either_named :
    (name word word' : Bytes)
    → (bytes_eq (uppercase name) word || bytes_eq (uppercase name) word') ≡ true
    → (uppercase name ≡ word) ⊎ (uppercase name ≡ word')
either_named name word word' same = elim (Bool-cases (bytes_eq (uppercase name) word)) [
  | inl first ↦ inl (named name word first)
  | inr other ↦ inr (named name word' (rw other at same))
]

delete-Meant :
    (usage name : Bytes) (rest : List Bytes)
    → (bytes_eq (uppercase name) (text "DEL") || bytes_eq (uppercase name) (text "DELETE")) ≡ true
    → Meant (name ∷ rest) (parse_key CommandType.delete usage (name ∷ rest))
delete-Meant usage name rest same = elim (either_named name (text "DEL") (text "DELETE") same) [
  | inl del ↦ key-Meant CommandType.delete usage name rest (λ key. says_del name key del)
  | inr delete ↦ key-Meant CommandType.delete usage name rest (λ key. says_delete name key delete)
]

exit-Meant :
    (usage name : Bytes) (rest : List Bytes)
    → (bytes_eq (uppercase name) (text "EXIT") || bytes_eq (uppercase name) (text "QUIT")) ≡ true
    → Meant (name ∷ rest) (parse_bare CommandType.exit usage (name ∷ rest))
exit-Meant usage name rest same = elim (either_named name (text "EXIT") (text "QUIT") same) [
  | inl exit ↦ bare-Meant CommandType.exit usage name rest (says_exit name exit)
  | inr quit ↦ bare-Meant CommandType.exit usage name rest (says_quit name quit)
]

named-Meant :
    (name : Bytes) (rest : List Bytes)
    → Meant (name ∷ rest) (parse_named (uppercase name) (name ∷ rest))
unfolding parse_named
named-Meant name rest =
    if_cases _ (λ is. set-Meant name rest (named name _ is))
      (if_cases _
        (λ is. key-Meant CommandType.get _ name rest (λ key. says_get name key (named name _ is)))
        (if_cases _ (λ is. delete-Meant _ name rest is)
          (if_cases _
            (λ is.
              key-Meant CommandType.exists _ name rest
                (λ key. says_exists name key (named name _ is)))
            (if_cases _ (λ is. keys-Meant name rest (named name _ is))
              (if_cases _
                (λ is. bare-Meant CommandType.stats _ name rest (says_stats name (named name _ is)))
                (if_cases _
                  (λ is.
                    bare-Meant CommandType.compact _ name rest
                      (says_compact name (named name _ is)))
                  (if_cases _
                    (λ is.
                      bare-Meant CommandType.help _ name rest (says_help name (named name _ is)))
                    (if_cases _ (λ is. exit-Meant _ name rest is) (wrong refl)))))))))

-- From what the tokens mean to what the line says.
meant-Understood :
    (input name : Bytes) (rest : List Bytes) {result : Result Command}
    → tokenize input ≡ succeed (name ∷ rest)
    → parse input ≡ result
    → Meant (name ∷ rest) result
    → Understood input result
meant-Understood input name rest split is (meant says) = said (name ∷ rest, split, says)
meant-Understood input name rest split is (wrong {st} code) =
    refused code (λ (command, (tokens, split', says)).
      absurd (ground (arith, is, parse-Says input command tokens split' says)))

-- A line that the tokenizer refuses.
tokenize_refused :
    (input : Bytes) (st : Status) → tokenize input ≡ fail st → st.code ≡ invalid_argument
unfolding tokenize
tokenize_refused input st h = run_refused initial input st h

unsplit :
    (input : Bytes) (st : Status)
    → tokenize input ≡ fail st
    → ¬ ((command : Command) × Said input command)
unsplit input st failed (command, (tokens, split, says)) = absurd (ground (arith, failed, split))

-- A line of no tokens.
nothing-Said :
    (input : Bytes) → tokenize input ≡ succeed [] → ¬ ((command : Command) × Said input command)
nothing-Said input split (command, (tokens, split', says)) = by_tokens tokens split' says
  where
    by_tokens : (tokens : List Bytes) → tokenize input ≡ succeed tokens → ¬ (Says tokens command)
    by_tokens [] split' says = elim says [ ]
    by_tokens (name ∷ rest) split' says = absurd (ground (arith, split, split'))

-- For every line, either `parse` returns a command, and the line has tokens that say this command, with
-- its name in any case, as many arguments as it takes and a time to live that `parseTtl` accepts; or
-- `parse` returns INVALID_ARGUMENT, and the line has no tokens at all, or tokens that say no command.
pub parse-Understood : (input : Bytes) → Understood input (parse input)
unfolding parse
parse-Understood input = elim (Result-cases (tokenize input)) [
  | inl ([], split) ↦ rw (split, parse) (refused refl (nothing-Said input split))
  | inl (name ∷ rest, split) ↦
      let is = parse_tokens input name rest split in
      rw is (meant-Understood input name rest split is (named-Meant name rest))
  | inr (st, failed) ↦
      rw (failed, parse) (refused (tokenize_refused input st failed) (unsplit input st failed))
]
