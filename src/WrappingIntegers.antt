-- ===== src/WrappingIntegers.antt =====
-- libsponge/wrapping_integers.hh and .cc: 32-bit sequence numbers relative to an initial one.
pub mod Distance
pub mod Unwrap
mod Tests
use tcp_implementation.Base.{
  ℕ, ◌+◌, ◌-◌, ◌%◌, ◌^◌, Bool, not, ltb, leb, ◌==◌, if◌then◌else◌, u32_mod, u64_mod, add32, sub32,
  add64,
}

-- `class WrappingInt32`.
pub record WrappingInt32 : Type 0 where
  pub raw_value : ℕ

-- A cast to uint32_t.
abbrev pub to_u32 : ℕ → ℕ
to_u32 n = n % u32_mod

-- `operator+(WrappingInt32, uint32_t)`.
unfoldable pub plus : WrappingInt32 → ℕ → WrappingInt32
plus a b = record { raw_value = add32 a.raw_value b }

-- `operator-(WrappingInt32, uint32_t)`: `a + -b`.
unfoldable pub minus : WrappingInt32 → ℕ → WrappingInt32
unfolding plus
minus a b = plus a (sub32 0 b)

-- `operator-(WrappingInt32, WrappingInt32)`, an int32_t kept as its bit pattern.
unfoldable pub difference : WrappingInt32 → WrappingInt32 → ℕ
difference a b = sub32 a.raw_value b.raw_value

-- `operator==`, `!=`, `<`, `>`, `>=`: of the raw values.
unfoldable pub eq : WrappingInt32 → WrappingInt32 → Bool
eq a b = a.raw_value == b.raw_value

unfoldable pub ne : WrappingInt32 → WrappingInt32 → Bool
unfolding eq
ne a b = not (eq a b)

unfoldable pub lt : WrappingInt32 → WrappingInt32 → Bool
lt a b = ltb a.raw_value b.raw_value

unfoldable pub gt : WrappingInt32 → WrappingInt32 → Bool
gt a b = ltb b.raw_value a.raw_value

unfoldable pub ge : WrappingInt32 → WrappingInt32 → Bool
ge a b = leb b.raw_value a.raw_value

-- `wrap(n, isn)`: `isn + static_cast<uint32_t>(n)`.
unfoldable pub wrap : ℕ → WrappingInt32 → WrappingInt32
unfolding plus
wrap n isn = plus isn (to_u32 n)

-- An int32_t pattern widened to 64 bits with its sign.
abbrev pub sign_extend : ℕ → ℕ
sign_extend d = if ltb d (2 ^ 31) then d else d + (u64_mod - u32_mod)

-- The return line of `unwrap`: `Abs_seqno >= 0 ? Abs_seqno : Abs_seqno + (1UL << 32)`.
abbrev pub non_negative : ℕ → ℕ
non_negative abs_seqno = if ltb abs_seqno (2 ^ 63) then abs_seqno else add64 abs_seqno u32_mod

-- `unwrap(n, isn, checkpoint)`.
unfoldable pub unwrap : WrappingInt32 → WrappingInt32 → ℕ → ℕ
unfolding wrap difference
unwrap n isn checkpoint =
    let rlt = wrap checkpoint isn in
    let distance = difference n rlt in non_negative (add64 checkpoint (sign_extend distance))
