-- ===== src/Ipv4.antt =====
-- libsponge/tcp_helpers/ipv4_header.hh and .cc, ipv4_datagram.hh and .cc. Masks are read as in
-- Parser/Flags; low bits are a remainder.
pub mod Header
pub mod RoundTrip
mod Tests
use tcp_implementation.Base.{
  ℕ, ◌+◌, ◌-◌, ◌*◌, ◌/◌, ◌%◌, Bool, true, false, not, List, [], ◌++◌, Option, none, some, ltb, ◌==◌,
  if◌then◌else◌, resize, length, take, add32, ◌>>=◌, u16_mod,
}
use tcp_implementation.Parser.{
  NetParser, parser, ParseResult, no_error, bad_checksum, packet_too_short, wrong_ip_version,
  header_too_short, truncated_packet, is_error, u8, u16, u32, remove_prefix, put_u8, put_u16,
  put_u32,
}
use tcp_implementation.Checksum.{checksum, add, value}
use tcp_implementation.Parser.Flags.{flag, flag_value}

-- `IPv4Header::LENGTH`.
abbrev pub header_length : ℕ
header_length = 20

-- `IPv4Header::PROTO_TCP`.
abbrev pub proto_tcp : ℕ
proto_tcp = 6

-- `struct IPv4Header`.
pub record Ipv4Header : Type 0 where
  pub ver : ℕ
  pub hlen : ℕ
  pub tos : ℕ
  pub len : ℕ
  pub id : ℕ
  pub df : Bool
  pub mf : Bool
  pub offset : ℕ
  pub ttl : ℕ
  pub proto : ℕ
  pub cksum : ℕ
  pub src : ℕ
  pub dst : ℕ

-- The default member initializers.
abbrev pub default_header : Ipv4Header
default_header = record {
  ver = 4;
  hlen = 5;
  tos = 0;
  len = 0;
  id = 0;
  df = true;
  mf = false;
  offset = 0;
  ttl = 128;
  proto = proto_tcp;
  cksum = 0;
  src = 0;
  dst = 0;
}

-- The checks of `IPv4Header::parse` after the fields are read.
unfoldable pub check_header : List ℕ → Ipv4Header → NetParser → NetParser × ParseResult
check_header original h p =
    let p' = remove_prefix p (h.hlen * 4 - header_length) in
    let check = add (checksum 0) (take (4 * h.hlen) original) in
    if ltb (length original) (4 * h.hlen)
    then (p, packet_too_short)
    else if not (h.ver == 4)
    then (p, wrong_ip_version)
    else if ltb h.hlen 5
    then (p, header_too_short)
    else if not (length original == h.len)
    then (p, truncated_packet)
    else if is_error p'.error
    then (p', p'.error)
    else if not (value check == 0)
    then (p', bad_checksum)
    else (p', no_error)

-- `IPv4Header::parse(p)` on the header `old`: the header, the parser and the result.
unfoldable pub parse_header : Ipv4Header → NetParser → Ipv4Header × NetParser × ParseResult
parse_header old p0 =
    let (first_byte, p1) = u8 p0 in
    let (tos, p2) = u8 p1 in
    let (len, p3) = u16 p2 in
    let (id, p4) = u16 p3 in
    let (fo_val, p5) = u16 p4 in
    let (ttl, p6) = u8 p5 in
    let (proto, p7) = u8 p6 in
    let (cksum, p8) = u16 p7 in
    let (src, p9) = u32 p8 in
    let (dst, p10) = u32 p9 in
    let header : Ipv4Header = record {
      ver = first_byte / 16;
      hlen = first_byte % 16;
      tos = tos;
      len = len;
      id = id;
      df = flag fo_val 16384;
      mf = flag fo_val 8192;
      offset = fo_val % 8192;
      ttl = ttl;
      proto = proto;
      cksum = cksum;
      src = src;
      dst = dst;
    } in
    let checked = check_header p0.buffer header p10 in
    if ltb (length p0.buffer) header_length
    then (old, p0, packet_too_short)
    else (header, checked.0, checked.1)

-- The fields of `IPv4Header::serialize`, before the string is resized.
unfoldable pub header_fields : Ipv4Header → List ℕ
header_fields h =
    let ret = put_u8 [] (h.ver * 16 % 256 + h.hlen % 16) in
    let ret = put_u8 ret h.tos in
    let ret = put_u16 ret h.len in
    let ret = put_u16 ret h.id in
    let ret = put_u16 ret (flag_value h.df 16384 + flag_value h.mf 8192 + h.offset % 8192) in
    let ret = put_u8 ret h.ttl in
    let ret = put_u8 ret h.proto in
    let ret = put_u16 ret h.cksum in let ret = put_u32 ret h.src in put_u32 ret h.dst

-- `IPv4Header::serialize()`; `none` where it throws.
unfoldable pub serialize_header : Ipv4Header → Option (List ℕ)
serialize_header h =
    if not (h.ver == 4)
    then none
    else if ltb (4 * h.hlen) header_length
    then none
    else some (resize (4 * h.hlen) 0 (header_fields h))

-- `IPv4Header::payload_length()`.
abbrev pub payload_length : Ipv4Header → ℕ
payload_length h = (h.len + u16_mod - 4 * h.hlen) % u16_mod

-- `IPv4Header::pseudo_cksum()`.
unfoldable pub pseudo_cksum : Ipv4Header → ℕ
pseudo_cksum h =
    let pcksum = add32 (h.src / 65536) (h.src % 65536) in
    let pcksum = add32 pcksum (add32 (h.dst / 65536) (h.dst % 65536)) in
    let pcksum = add32 pcksum h.proto in add32 pcksum (payload_length h)

-- `class IPv4Datagram`.
pub record Ipv4Datagram : Type 0 where
  pub header : Ipv4Header
  pub payload : List ℕ

-- `IPv4Datagram::parse(buffer)` on a new datagram.
unfoldable pub parse : List ℕ → Ipv4Datagram × ParseResult
parse buffer =
    let (header, p, _) = parse_header default_header (parser buffer) in
    let datagram : Ipv4Datagram = record { header = header; payload = p.buffer } in
    if not (length p.buffer == payload_length header)
    then (datagram, packet_too_short)
    else (datagram, p.error)

abbrev pub with_cksum : Ipv4Header → ℕ → Ipv4Header
with_cksum h n = record h { cksum = n }

-- `IPv4Datagram::serialize()`: the bytes of the buffer list; `none` where it throws.
unfoldable pub serialize : Ipv4Datagram → Option (List ℕ)
serialize d = if not (length d.payload == payload_length d.header) then none else do
  header ← serialize_header (with_cksum d.header 0)
  out ← serialize_header (with_cksum d.header (value (add (checksum 0) header)))
  some (out ++ d.payload)
