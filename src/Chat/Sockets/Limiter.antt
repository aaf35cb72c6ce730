-- ===== src/Chat/Sockets/Limiter.antt =====
-- `RateLimiter` of apps/chat/consumers/base.py, a bucket of tokens for each connection. Time is a
-- number of ticks, `second` of them to a second, and the bucket holds its tokens in parts of which
-- `second` make one, so that no fraction is rounded.
pub mod Rate
use azm_crm.Prelude.{ℕ, ◌+◌, ◌-◌, ◌*◌, min, Bool, true, false, List, [], ◌∷◌, if◌then◌else◌, ltb}

pub record Limiter : Type 0 where
  pub capacity : ℕ
  pub refill : ℕ
  pub second : ℕ
  pub tokens : ℕ
  pub checked_at : ℕ

unfoldable pub fresh : ℕ → ℕ → ℕ → ℕ → Limiter
fresh second capacity refill at = record {
  capacity = capacity;
  refill = refill;
  second = second;
  tokens = capacity * second;
  checked_at = at;
}

abbrev pub refilled : ℕ → Limiter → ℕ
refilled at l = min (l.capacity * l.second) (l.tokens + (at - l.checked_at) * l.refill)

unfoldable pub allow : ℕ → Limiter → Bool × Limiter
allow at l =
    if ltb (refilled at l) l.second
    then (false, record l { tokens = refilled at l; checked_at = at })
    else (true, record l { tokens = refilled at l - l.second; checked_at = at })
