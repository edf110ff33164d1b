-- ===== src/Prelude/Decimal.antt =====
-- `std::to_string` of an unsigned number.
use mini_kvstore.Prelude.Tests.{Bytes, ltb, if◌then◌else◌}
use Prim.Native.Nat.{ℕ, zero, suc, ◌+◌, ◌/◌, ◌%◌}
use mathlib.Core.List.{[], ◌∷◌}

-- The digits of `n` before those in `acc`; a number has no more digits than its value plus one.
unfoldable pub decimal_loop : ℕ → ℕ → Bytes → Bytes
decimal_loop zero n acc = acc
decimal_loop (suc fuel) n acc =
    let digit : ℕ = 48 + n % 10 in
    let rest = decimal_loop fuel (n / 10) (digit ∷ acc) in if ltb n 10 then digit ∷ acc else rest

unfoldable pub decimal : ℕ → Bytes
unfolding decimal_loop
decimal n = decimal_loop (suc n) n []
