-- ===== src/WrappingIntegers/Tests.antt =====
-- Runs of wrap and unwrap, and the theorems at inputs that meet their hypotheses.
use tcp_implementation.Base.{ℕ, ◌+◌, ◌-◌, ◌*◌, ◌^◌, ◌≤◌, ◌≡◌, refl, arith, u32_mod}
use tcp_implementation.WrappingIntegers.{WrappingInt32, wrap, unwrap, plus}
use tcp_implementation.WrappingIntegers.Unwrap.{
  unwrap-wrap, unwrap_closest, unwrap-wrap_above_int64,
}

abbrev raw : ℕ → WrappingInt32
raw n = record { raw_value = n }

-- tests/wrapping_integers_wrap.cc
wrap_past_the_end : wrap (3 * 2 ^ 32 + 17) (raw 15) ≡ raw 32
unfolding wrap
wrap_past_the_end = refl

-- tests/wrapping_integers_unwrap.cc
unwrap_near_zero : unwrap (raw (u32_mod - 1)) (raw 0) 0 ≡ u32_mod - 1
unfolding unwrap
unwrap_near_zero = refl

unwrap_far : unwrap (raw (u32_mod - 10)) (raw 0) (3 * 2 ^ 32) ≡ 3 * 2 ^ 32 - 10
unfolding unwrap
unwrap_far = refl

unwrap-wrap_example : unwrap (wrap 4294967306 (raw 9)) (raw 9) 4294967290 ≡ 4294967306
unwrap-wrap_example =
    unwrap-wrap 4294967306 4294967290 (raw 9) (omega arith) (omega arith) (omega arith)
      (omega arith) (omega arith)

unwrap_closest_example :
    (wrap (unwrap (raw 12) (raw 9) 70) (raw 9) ≡ raw 12)
    × ((unwrap (raw 12) (raw 9) 70 - 70) + (70 - unwrap (raw 12) (raw 9) 70) ≤ (3 - 70) + (70 - 3))
unwrap_closest_example =
    unwrap_closest (raw 12) (raw 9) 70 3 (omega arith) (omega arith) (omega arith) wrapped
  where
    wrapped : wrap 3 (raw 9) ≡ raw 12
    wrapped = unfold wrap plus in refl

unwrap-wrap_above_int64_example : unwrap (wrap (2 ^ 63) (raw 5)) (raw 5) (2 ^ 63) ≡ 2 ^ 63 + u32_mod
unwrap-wrap_above_int64_example =
    unwrap-wrap_above_int64 (2 ^ 63) (2 ^ 63) (raw 5) (omega arith) (omega arith) (omega arith)
      (omega arith) (omega arith) (omega arith)
