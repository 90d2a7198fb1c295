-- ===== src/WrappingIntegers/Distance.antt =====
-- The helper operators of wrapping_integers.hh: steps forward and back, and offsets.
use tcp_implementation.Base.{ℕ, ◌+◌, ◌<◌, ◌≡◌, arith, u32_mod}
use tcp_implementation.WrappingIntegers.{WrappingInt32, wrap, plus, minus, difference, to_u32}

-- For raw values and steps of 32 bits, `b` steps back undo `b` steps forward, the offset of
-- `a + b` from `a` is `b`, and the offset of `c` from `a` leads from `a` to `c`.
pub minus-plus :
    (a c : WrappingInt32) (b : ℕ)
    → a.raw_value < u32_mod
    → c.raw_value < u32_mod
    → b < u32_mod
    → (minus (plus a b) b ≡ a) × (difference (plus a b) a ≡ b) × (plus a (difference c a) ≡ c)
unfolding minus plus difference
minus-plus a c b ha hc hb = ground arith

-- Sequence numbers advance with the absolute numbers that they stand for.
pub wrap-add : (n m : ℕ) (isn : WrappingInt32) → wrap (n + m) isn ≡ plus (wrap n isn) (to_u32 m)
unfolding wrap
wrap-add n m isn = ground arith

raw_value-wrap : (n : ℕ) (isn : WrappingInt32) → (wrap n isn).raw_value < u32_mod
unfolding wrap plus
raw_value-wrap n isn = omega arith
