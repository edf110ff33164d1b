-- ===== src/CommandParser/Quotes.antt =====
-- Which lines the tokenizer takes apart: those whose quotes and escapes are closed.
use mini_kvstore.Prelude.{
  ℕ, ◌≡◌, ◌≢◌, refl, ◌↔◌, ◌⊎◌, inl, inr, true, false, Bytes, List, [], ◌∷◌, ◌++◌, ◌==◌, ==_iff,
  Bool-cases, arith,
}
use mini_kvstore.Result.{succeed, Result-cases}
use mini_kvstore.CommandParser.Tokens.{Tokenizer, step, step_escape, run, finish, initial, tokenize}

-- Where a byte stands: outside of quotes, between quotes, or behind a backslash between quotes.
pub data Mode : Type 0 where
  outside inside escaped : Mode

-- What a byte makes of the mode. Behind a backslash only `n`, `t`, a quote and a backslash may stand; outside of
-- quotes a backslash is a byte like others.
pub data Moves : Mode → ℕ → Mode → Type 0 where
  plain : (c : ℕ) → c ≢ b'"' → Moves outside c outside
  opens : (c : ℕ) → c ≡ b'"' → Moves outside c inside
  quoted : (c : ℕ) → c ≢ b'"' → c ≢ b'\\' → Moves inside c inside
  closes : (c : ℕ) → c ≡ b'"' → Moves inside c outside
  escapes : (c : ℕ) → c ≡ b'\\' → Moves inside c escaped
  completes :
      (c : ℕ) → (c ≡ b'n') ⊎ ((c ≡ b't') ⊎ ((c ≡ b'"') ⊎ (c ≡ b'\\'))) → Moves escaped c inside

-- The bytes lead from the mode to the outside of quotes.
pub data IsClosed : Mode → Bytes → Type 0 where
  ends : IsClosed outside []
  moves : {m m' : Mode} {c : ℕ} {cs : Bytes} → Moves m c m' → IsClosed m' cs → IsClosed m (c ∷ cs)

-- The tokenizer is in the mode.
abbrev IsAt : Mode → Tokenizer → Type 0
IsAt outside t = (t.escaping ≡ false) × (t.in_quotes ≡ false)
IsAt inside t = (t.escaping ≡ false) × (t.in_quotes ≡ true)
IsAt escaped t = (t.escaping ≡ true) × (t.in_quotes ≡ true)

-- The tokenizer makes every move.
moved :
    (t : Tokenizer) (c : ℕ) {m m' : Mode}
    → IsAt m t
    → Moves m c m'
    → (t' : Tokenizer) × (step t c ≡ succeed t') × IsAt m' t'
unfolding step step_escape
moved t c at (plain _ ne) = elim (Result-cases (step t c)) [
  | inl (t', done) ↦ (t', done, ground (arith, at, ne, done))
  | inr (st, failed) ↦ absurd (ground (arith, at, ne, failed))
]
moved t c at (opens _ is) = elim (Result-cases (step t c)) [
  | inl (t', done) ↦ (t', done, ground (arith, at, is, done))
  | inr (st, failed) ↦ absurd (ground (arith, at, is, failed))
]
moved t c at (quoted _ ne ne') = elim (Result-cases (step t c)) [
  | inl (t', done) ↦ (t', done, ground (arith, at, ne, ne', done))
  | inr (st, failed) ↦ absurd (ground (arith, at, ne, ne', failed))
]
moved t c at (closes _ is) = elim (Result-cases (step t c)) [
  | inl (t', done) ↦ (t', done, ground (arith, at, is, done))
  | inr (st, failed) ↦ absurd (ground (arith, at, is, failed))
]
moved t c at (escapes _ is) = elim (Result-cases (step t c)) [
  | inl (t', done) ↦ (t', done, ground (arith, at, is, done))
  | inr (st, failed) ↦ absurd (ground (arith, at, is, failed))
]
moved t c at (completes _ is) = elim (Result-cases (step t c)) [
  | inl (t', done) ↦ (t', done, ground (arith, at, is, done))
  | inr (st, failed) ↦ absurd (ground (arith, at, is, failed))
]

-- And no other.
step-Moves :
    (m : Mode) (t : Tokenizer) (c : ℕ) (t' : Tokenizer)
    → IsAt m t
    → step t c ≡ succeed t'
    → (m' : Mode) × Moves m c m' × IsAt m' t'
unfolding step step_escape
step-Moves outside t c t' at done = elim (Bool-cases (c == b'"')) [
  | inl quote ↦ (inside, opens c ((==_iff c b'"').0 quote), ground (arith, at, quote, done))
  | inr other ↦ (outside, plain c (ground (arith, other)), ground (arith, at, other, done))
]
step-Moves inside t c t' at done = elim (Bool-cases (c == b'"')) [
  | inl quote ↦ (outside, closes c ((==_iff c b'"').0 quote), ground (arith, at, quote, done))
  | inr other ↦ elim (Bool-cases (c == b'\\')) [
    | inl slash ↦
        (escaped, escapes c ((==_iff c b'\\').0 slash), ground (arith, at, other, slash, done))
    | inr neither ↦ (
      inside,
      quoted c (ground (arith, other)) (ground (arith, neither)),
      ground (arith, at, other, neither, done),
    )
  ]
]
step-Moves escaped t c t' at done =
    (inside, completes c (ground (arith, at, done)), ground (arith, at, done))

run-IsClosed :
    (m : Mode) (t : Tokenizer) (input : Bytes) (tokens : List Bytes)
    → IsAt m t
    → run t input ≡ succeed tokens
    → IsClosed m input
unfolding run finish
run-IsClosed outside t [] tokens at done = ends
run-IsClosed inside t [] tokens at done = absurd (ground (arith, at, done))
run-IsClosed escaped t [] tokens at done = absurd (ground (arith, at, done))
run-IsClosed m t (c ∷ cs) tokens at done = elim (Result-cases (step t c)) [
  | inl (t', made) ↦
      let (m', move, at') = step-Moves m t c t' at made in
      moves move (run-IsClosed m' t' cs tokens at' (rw (made, run) at done))
  | inr (st, failed) ↦ absurd (ground (arith, failed, done))
]

IsClosed-run :
    {m : Mode} (t : Tokenizer) {input : Bytes}
    → IsAt m t
    → IsClosed m input
    → (tokens : List Bytes) × (run t input ≡ succeed tokens)
unfolding run finish
IsClosed-run t at ends = elim (Bool-cases t.token_started) [
  | inl started ↦ (t.tokens ++ t.current ∷ [], rw (at.0, at.1, started) refl)
  | inr other ↦ (t.tokens, rw (at.0, at.1, other) refl)
]
IsClosed-run t at (moves {c = c} move closed) =
    let (t', made, at') = moved t c at move in
    let (tokens, done) = IsClosed-run t' at' closed in (tokens, rw (made, run) done)

-- A line has tokens exactly when every quote in it is closed and every backslash between quotes has one
-- of the four bytes behind it that it may have; for any other line, `tokenize` fails.
pub tokenize-IsClosed :
    (input : Bytes)
    → ((tokens : List Bytes) × (tokenize input ≡ succeed tokens)) ↔ IsClosed outside input
unfolding tokenize
tokenize-IsClosed input = (
  λ (tokens, done). run-IsClosed outside initial input tokens (refl, refl) done,
  λ closed. IsClosed-run initial (refl, refl) closed,
)
