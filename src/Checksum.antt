-- ===== src/Checksum.antt =====
-- libsponge/util/util.hh and .cc: the Internet checksum.
pub mod Laws
mod Tests
use tcp_implementation.Base.{
  ℕ, zero, suc, ◌+◌, ◌-◌, ◌*◌, ◌/◌, ◌%◌, Bool, true, false, not, List, [], ◌∷◌, ltb, if◌then◌else◌,
  add32, u16_mod, u32_mod,
}

-- `class InternetChecksum`.
pub record InternetChecksum : Type 0 where
  pub sum : ℕ
  pub parity : Bool

-- The constructor.
abbrev pub checksum : ℕ → InternetChecksum
checksum initial_sum = record { sum = initial_sum; parity = false }

-- One round of the loop of `add`.
abbrev pub add_byte : InternetChecksum → ℕ → InternetChecksum
add_byte c x = record {
  sum = add32 c.sum (if c.parity then x else x * 256 % u16_mod);
  parity = not c.parity;
}

-- `add(data)`.
unfoldable pub add : InternetChecksum → List ℕ → InternetChecksum
add c [] = c
add c (x ∷ xs) = add (add_byte c x) xs

-- The loop of `value`, on fuel.
unfoldable pub fold_loop : ℕ → ℕ → ℕ
fold_loop zero ret = ret
fold_loop (suc fuel) ret =
    let rest = fold_loop fuel (add32 (ret / 65536) (ret % 65536)) in
    if ltb 65535 ret then rest else ret

-- `value()`. Two rounds make any 32-bit sum a 16-bit one.
unfoldable pub value : InternetChecksum → ℕ
unfolding fold_loop
value c = (u32_mod - 1 - fold_loop 2 c.sum) % u16_mod
