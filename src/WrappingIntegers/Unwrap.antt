-- ===== src/WrappingIntegers/Unwrap.antt =====
-- `wrap` and `unwrap` of wrapping_integers.cc: inverse to one another near the checkpoint.
use tcp_implementation.Base.{ℕ, ◌+◌, ◌-◌, ◌^◌, ◌≤◌, ◌<◌, ◌≡◌, arith, u32_mod, u64_mod}
use tcp_implementation.WrappingIntegers.{WrappingInt32, wrap, unwrap}

-- Near the checkpoint, and below 2^63, `unwrap` recovers the absolute number that was wrapped.
pub unwrap-wrap :
    (n checkpoint : ℕ) (isn : WrappingInt32)
    → isn.raw_value < u32_mod
    → n < 2 ^ 63
    → checkpoint < 2 ^ 63
    → n < checkpoint + 2 ^ 31
    → checkpoint ≤ n + 2 ^ 31
    → unwrap (wrap n isn) isn checkpoint ≡ n
unfolding unwrap
unwrap-wrap n checkpoint isn hi hn hc up down = ground arith

-- For a checkpoint below 2^63 - 2^31, `unwrap` yields a number that wraps to the given one.
pub wrap-unwrap :
    (n isn : WrappingInt32) (checkpoint : ℕ)
    → n.raw_value < u32_mod
    → isn.raw_value < u32_mod
    → checkpoint < 2 ^ 63 - 2 ^ 31
    → wrap (unwrap n isn checkpoint) isn ≡ n
unfolding unwrap
wrap-unwrap n isn checkpoint hn hi hc = ground arith

unwrap_near :
    (n isn : WrappingInt32) (checkpoint m : ℕ)
    → n.raw_value < u32_mod
    → isn.raw_value < u32_mod
    → checkpoint < 2 ^ 63 - 2 ^ 31
    → wrap m isn ≡ n
    → (unwrap n isn checkpoint - checkpoint) + (checkpoint - unwrap n isn checkpoint)
      ≤ (m - checkpoint) + (checkpoint - m)
unfolding unwrap
unwrap_near n isn checkpoint m hn hi hc e = ground arith

-- `unwrap` yields a number that wraps to the given value, and of all numbers that do so one nearest
-- to the checkpoint, for a checkpoint below 2^63 - 2^31 and words of 32 bits.
pub unwrap_closest :
    (n isn : WrappingInt32) (checkpoint m : ℕ)
    → n.raw_value < u32_mod
    → isn.raw_value < u32_mod
    → checkpoint < 2 ^ 63 - 2 ^ 31
    → wrap m isn ≡ n
    → (wrap (unwrap n isn checkpoint) isn ≡ n)
      × ((unwrap n isn checkpoint - checkpoint) + (checkpoint - unwrap n isn checkpoint)
          ≤ (m - checkpoint) + (checkpoint - m))
unwrap_closest n isn checkpoint m hn hi hc e =
    (wrap-unwrap n isn checkpoint hn hi hc, unwrap_near n isn checkpoint m hn hi hc e)

-- From 2^63 on the sum is read as a negative int64_t: `unwrap` answers 2^32 too much, even at the
-- number that was wrapped.
pub unwrap-wrap_above_int64 :
    (n checkpoint : ℕ) (isn : WrappingInt32)
    → isn.raw_value < u32_mod
    → 2 ^ 63 ≤ n
    → n + u32_mod < u64_mod
    → checkpoint < u64_mod
    → n < checkpoint + 2 ^ 31
    → checkpoint ≤ n + 2 ^ 31
    → unwrap (wrap n isn) isn checkpoint ≡ n + u32_mod
unfolding unwrap
unwrap-wrap_above_int64 n checkpoint isn hi hn hm hc up down = ground arith

-- What `unwrap` returns fits in 64 bits.
pub unwrap-lt : (n isn : WrappingInt32) (checkpoint : ℕ) → unwrap n isn checkpoint < u64_mod
unfolding unwrap
unwrap-lt n isn checkpoint = ground arith
