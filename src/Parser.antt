-- ===== src/Parser.antt =====
-- libsponge/util/parser.hh and .cc: integers in network byte order. A buffer is the bytes of its view,
-- numbers below 256.
pub mod Bytes
pub mod Flags
use tcp_implementation.Base.{
  ℕ, zero, suc, ◌+◌, ◌*◌, ◌/◌, ◌%◌, ◌^◌, Bool, true, false, List, [], ◌∷◌, ◌++◌, ltb, if◌then◌else◌,
  length, drop,
}

-- `enum class ParseResult`.
pub data ParseResult : Type 0 where
  no_error bad_checksum packet_too_short wrong_ip_version : ParseResult
  header_too_short truncated_packet unsupported : ParseResult

-- `class NetParser`.
pub record NetParser : Type 0 where
  pub buffer : List ℕ
  pub error : ParseResult

-- The constructor.
abbrev pub parser : List ℕ → NetParser
parser buffer = record { buffer = buffer; error = no_error }

-- `error()`.
abbrev pub is_error : ParseResult → Bool
is_error no_error = false
is_error bad_checksum = true
is_error packet_too_short = true
is_error wrong_ip_version = true
is_error header_too_short = true
is_error truncated_packet = true
is_error unsupported = true

unfoldable pub check_size : NetParser → ℕ → NetParser
check_size p size = if ltb (length p.buffer) size then record p { error = packet_too_short } else p

-- The loop of `_parse_int`, in a type of `modulus` values.
unfoldable pub parse_loop : ℕ → ℕ → List ℕ → ℕ → ℕ
parse_loop modulus zero bytes ret = ret
parse_loop modulus (suc n) [] ret = ret
parse_loop modulus (suc n) (x ∷ xs) ret =
    parse_loop modulus n xs ((ret * 256 % modulus + x) % modulus)

-- `_parse_int<T>()` for a type of `len` bytes.
unfoldable pub parse_int : ℕ → NetParser → ℕ × NetParser
unfolding check_size
parse_int len p =
    let p' = check_size p len in
    if is_error p'.error
    then (0, p')
    else (parse_loop (2 ^ (8 * len)) len p'.buffer 0, record p' { buffer = drop len p'.buffer })

unfoldable pub u8 : NetParser → ℕ × NetParser
u8 = parse_int 1

unfoldable pub u16 : NetParser → ℕ × NetParser
u16 = parse_int 2

unfoldable pub u32 : NetParser → ℕ × NetParser
u32 = parse_int 4

-- `NetParser::remove_prefix(n)`.
unfoldable pub remove_prefix : NetParser → ℕ → NetParser
unfolding check_size
remove_prefix p n =
    let p' = check_size p n in
    if is_error p'.error then p' else record p' { buffer = drop n p'.buffer }

-- The loop of `_unparse_int`, for the lowest `n` bytes.
unfoldable pub unparse_int : ℕ → List ℕ → ℕ → List ℕ
unparse_int zero s val = s
unparse_int (suc n) s val = unparse_int n (s ++ (val / 2 ^ (n * 8) % 256) ∷ []) val

-- `NetUnparser::u8(s, val)` and its kin: the string after the call.
unfoldable pub put_u8 : List ℕ → ℕ → List ℕ
unfolding unparse_int
put_u8 = unparse_int 1

unfoldable pub put_u16 : List ℕ → ℕ → List ℕ
unfolding unparse_int
put_u16 = unparse_int 2

unfoldable pub put_u32 : List ℕ → ℕ → List ℕ
unfolding unparse_int
put_u32 = unparse_int 4
