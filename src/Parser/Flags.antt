-- ===== src/Parser/Flags.antt =====
-- One-bit masks, as in tcp_header.cc and ipv4_header.cc: a bit is tested by division, and the disjoint
-- parts of a byte are added.
use tcp_implementation.Base.{
  ℕ, ◌*◌, ◌/◌, ◌%◌, ◌≤◌, ◌≡◌, Bool, true, false, not, arith, ◌==◌, if◌then◌else◌,
}

-- Whether the bit of a mask is set.
abbrev pub flag : ℕ → ℕ → Bool
flag byte mask = not (byte / mask % 2 == 0)

abbrev pub flag_value : Bool → ℕ → ℕ
flag_value b mask = if b then mask else 0

-- A flag as the digit of its byte.
unfoldable pub digit : Bool → ℕ
digit true = 1
digit false = 0

pub flag_value-digit : (b : Bool) (mask : ℕ) → flag_value b mask ≡ digit b * mask
unfolding digit
flag_value-digit true mask = omega arith
flag_value-digit false mask = omega arith

pub digit_le : (b : Bool) → digit b ≤ 1
unfolding digit
digit_le true = omega arith
digit_le false = omega arith

pub digit-flag : (b : Bool) (n : ℕ) → n ≡ digit b → not (n == 0) ≡ b
unfolding digit
digit-flag true n e = ground (arith, e)
digit-flag false n e = ground (arith, e)
