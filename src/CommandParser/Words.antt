-- ===== src/CommandParser/Words.antt =====
-- The tokenizer on a text with no quotes.
use mini_kvstore.Prelude.{
  ℕ, ◌≡◌, refl, sym, ap, ◌∙◌, Bool, true, false, not, Bytes, List, [], ◌∷◌, ◌++◌, ◌==◌,
  if◌then◌else◌, append_assoc, append-nil, arith, Bool-cases, inl, inr,
}
use mini_kvstore.Result.{succeed}
use mini_kvstore.CommandParser.Tokens.{Tokenizer, is_space, step, run, finish, tokenize}

-- Bytes in front of the first piece.
abbrev pub onto : Bytes → List Bytes → List Bytes
onto front [] = front ∷ []
onto front (piece ∷ rest) = (front ++ piece) ∷ rest

-- The pieces of a text between its spaces, the empty ones too.
abbrev pub pieces : Bytes → List Bytes
pieces [] = [] ∷ []
pieces (c ∷ cs) = if is_space c then [] ∷ pieces cs else onto (c ∷ []) (pieces cs)

abbrev pub non_empty : List Bytes → List Bytes
non_empty [] = []
non_empty ([] ∷ rest) = non_empty rest
non_empty ((c ∷ cs) ∷ rest) = (c ∷ cs) ∷ non_empty rest

abbrev pub words : Bytes → List Bytes
words text = non_empty (pieces text)

-- No byte of the text is a quote.
abbrev pub IsPlain : Bytes → Type 0
IsPlain [] = Unit
IsPlain (c ∷ cs) = ((c == b'"') ≡ false) × IsPlain cs

is_empty : Bytes → Bool
is_empty [] = true
is_empty (c ∷ cs) = false

-- The machine outside of quotes: it is in a token just if it has read a part of one.
abbrev outside : List Bytes → Bytes → Tokenizer
outside tokens current = record {
  tokens = tokens;
  current = current;
  in_quotes = false;
  escaping = false;
  token_started = not (is_empty current);
}

is_empty-append : (xs : Bytes) (c : ℕ) → is_empty (xs ++ c ∷ []) ≡ false
unfolding is_empty
is_empty-append [] c = refl
is_empty-append (x ∷ xs) c = refl

run-space :
    (tokens : List Bytes) (current : Bytes) (c : ℕ) (rest : Bytes)
    → (c == b'"') ≡ false
    → is_space c ≡ true
    → run (outside tokens current) (c ∷ rest)
      ≡ run (outside (tokens ++ non_empty (current ∷ [])) []) rest
unfolding run step is_empty
run-space tokens [] c rest plain space = ground (arith, append-nil tokens)
run-space tokens (x ∷ xs) c rest plain space = ground arith

run-letter :
    (tokens : List Bytes) (current : Bytes) (c : ℕ) (rest : Bytes)
    → (c == b'"') ≡ false
    → is_space c ≡ false
    → run (outside tokens current) (c ∷ rest) ≡ run (outside tokens (current ++ c ∷ [])) rest
unfolding run step
run-letter tokens current c rest plain letter = ground (arith, is_empty-append current c)

non_empty-append : (xs ys : List Bytes) → non_empty (xs ++ ys) ≡ non_empty xs ++ non_empty ys
non_empty-append [] ys = refl
non_empty-append ([] ∷ xs) ys = non_empty-append xs ys
non_empty-append ((c ∷ cs) ∷ xs) ys = ap (◌∷◌ (c ∷ cs)) (non_empty-append xs ys)

onto-onto : (xs ys : Bytes) (ps : List Bytes) → onto xs (onto ys ps) ≡ onto (xs ++ ys) ps
onto-onto xs ys [] = refl
onto-onto xs ys (p ∷ ps) = ap (λ (q : Bytes). q ∷ ps) (sym (append_assoc xs ys p))

onto_nothing : (text : Bytes) → onto [] (pieces text) ≡ pieces text
onto_nothing [] = refl
onto_nothing (c ∷ cs) = elim (Bool-cases (is_space c)) [
  | inl space ↦ rw space refl
  | inr letter ↦ rw letter (onto-onto [] (c ∷ []) (pieces cs))
]

run_end :
    (tokens : List Bytes) (current : Bytes)
    → run (outside tokens current) [] ≡ succeed (tokens ++ non_empty ((current ++ []) ∷ []))
unfolding run finish is_empty
run_end tokens [] = ap (λ (ts : List Bytes). succeed ts) (sym (append-nil tokens))
run_end tokens (x ∷ xs) = rw append-nil refl

next_word :
    (tokens : List Bytes) (current cs : Bytes)
    → (tokens ++ non_empty (current ∷ [])) ++ non_empty (onto [] (pieces cs))
      ≡ tokens ++ non_empty ((current ++ []) ∷ pieces cs)
next_word tokens current cs =
    rw (onto_nothing, append-nil current, append_assoc)
      (ap (λ (ts : List Bytes). tokens ++ ts) (sym (non_empty-append (current ∷ []) (pieces cs))))

run-words :
    (tokens : List Bytes) (current text : Bytes)
    → IsPlain text
    → run (outside tokens current) text ≡ succeed (tokens ++ non_empty (onto current (pieces text)))
run-words tokens current [] h = run_end tokens current
run-words tokens current (c ∷ cs) h = elim (Bool-cases (is_space c)) [
  | inl space ↦
      run-space tokens current c cs h.0 space
      ∙ run-words (tokens ++ non_empty (current ∷ [])) [] cs h.1
      ∙ rw space (ap (λ (ts : List Bytes). succeed ts) (next_word tokens current cs))
  | inr letter ↦
      run-letter tokens current c cs h.0 letter
      ∙ run-words tokens (current ++ c ∷ []) cs h.1
      ∙ rw letter (
          ap (λ (ps : List Bytes). succeed (tokens ++ non_empty ps))
            (sym (onto-onto current (c ∷ []) (pieces cs))))
]

-- On a text with no quotes, `tokenize` returns the non-empty pieces between the spaces, with
-- backslashes as they stand.
pub tokenize-words : (text : Bytes) → IsPlain text → tokenize text ≡ succeed (words text)
unfolding tokenize is_empty
tokenize-words text h =
    run-words [] [] text h ∙ ap (λ (ps : List Bytes). succeed (non_empty ps)) (onto_nothing text)
