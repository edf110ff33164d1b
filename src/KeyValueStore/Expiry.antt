-- ===== src/KeyValueStore/Expiry.antt =====
-- The expiry that `set` computes from a time to live, and when it is reached.
use mini_kvstore.Prelude.{ℕ, ◌+◌, ◌^◌, ◌<◌, ◌≡◌, false, some, ltb, leb, ◌&&◌, arith}
use mini_kvstore.Record.{is_expired}
use mini_kvstore.KeyValueStore.{expiry, is_bad_ttl}

-- For a time to live that `set` accepts, with the clock below 2 ^ 63 at both times: the expiry has been
-- reached just if the time to live has passed, where the sum of clock and time to live is below
-- 2 ^ 63; where it is not, the sum has wrapped to a negative number, and the key never expires.
pub is_expired-expiry :
    (now_ms count later : ℕ)
    → is_bad_ttl (some count) ≡ false
    → now_ms < 2 ^ 63
    → later < 2 ^ 63
    → is_expired (expiry now_ms (some count)) later
      ≡ (ltb (now_ms + count) (2 ^ 63) && leb (now_ms + count) later)
unfolding is_expired
is_expired-expiry now_ms count later accepted clock word = ground arith
