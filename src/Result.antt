-- ===== src/Result.antt =====
-- include/minikv/Result.h. The constructor of `Result` is private, so its values are those of its
-- two factories: a success with a value, and a failure with a status and no value.
use mini_kvstore.Prelude.{◌≡◌, refl, ◌⊎◌, inl, inr, Bool, false, Option, none, some}
use mini_kvstore.Status.{Status, success, is_ok}

pub data Result {ℓ} (T : Type ℓ) : Type ℓ where
  succeed : T → Result T
  fail : Status → Result T

module _ {ℓ} {T : Type ℓ} where
  -- Result::status
  abbrev pub status : Result T → Status
  status (succeed value) = success
  status (fail s) = s

  -- Result::ok
  abbrev pub is_success : Result T → Bool
  is_success r = is_ok (status r)

  -- Result::value and Result::take; `none` is the `std::logic_error` that they throw.
  unfoldable pub value : Result T → Option T
  value (succeed v) = some v
  value (fail s) = none

  -- A result whose `ok()` tells whether there is a value, so that `take` after `ok` never throws.
  abbrev pub IsProper : Result T → Type 0
  IsProper (succeed v) = Unit
  IsProper (fail s) = is_ok s ≡ false

  pub Result-cases : (r : Result T) → ((v : T) × (r ≡ succeed v)) ⊎ ((s : Status) × (r ≡ fail s))
  Result-cases (succeed v) = inl (v, refl)
  Result-cases (fail s) = inr (s, refl)
