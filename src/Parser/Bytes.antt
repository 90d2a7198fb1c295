-- ===== src/Parser/Bytes.antt =====
-- What parser.cc reads from bytes that are there.
use tcp_implementation.Base.{
  ℕ, ◌+◌, ◌*◌, ◌/◌, ◌%◌, ◌<◌, ◌≡◌, List, ◌∷◌, ◌++◌, arith, length, drop-append, drop-ge,
  length-append,
}
use tcp_implementation.Parser.{parser, u8, u16, u32, parse_int, parse_loop, remove_prefix}

pub u8_lem : (a : ℕ) (rest : List ℕ) → u8 (parser (a ∷ rest)) ≡ (a % 256, parser rest)
unfolding u8 parse_int parse_loop
u8_lem a rest = ground arith

pub u16_lem :
    (a b : ℕ) (rest : List ℕ) → u16 (parser (a ∷ b ∷ rest)) ≡ ((a * 256 + b) % 65536, parser rest)
unfolding u16 parse_int parse_loop
u16_lem a b rest = ground arith

pub u32_lem :
    (a b c d : ℕ) (rest : List ℕ)
    → u32 (parser (a ∷ b ∷ c ∷ d ∷ rest))
      ≡ ((((a * 256 + b) * 256 + c) * 256 + d) % 4294967296, parser rest)
unfolding u32 parse_int parse_loop
u32_lem a b c d rest = ground arith

pub remove_prefix_lem :
    (xs rest : List ℕ) (n : ℕ) → length xs ≡ n → remove_prefix (parser (xs ++ rest)) n ≡ parser rest
unfolding remove_prefix
remove_prefix_lem xs rest n e =
    ground (arith, length-append xs rest, drop-append n xs rest, drop-ge n xs)

-- The bytes of a field make up its value.
pub word16 : (n : ℕ) → n < 65536 → (n / 256 % 256 * 256 + n % 256) % 65536 ≡ n
word16 n h = omega arith

pub word32 :
    (n : ℕ)
    → n < 4294967296
    → (((n / 16777216 % 256 * 256 + n / 65536 % 256) * 256 + n / 256 % 256) * 256 + n % 256)
        % 4294967296
      ≡ n
word32 n h = omega arith

pub word8 : (n : ℕ) → n < 256 → n % 256 % 256 ≡ n
word8 n h = omega arith
