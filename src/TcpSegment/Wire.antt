-- ===== src/TcpSegment/Wire.antt =====
-- libsponge/tcp_helpers/tcp_header.cc and tcp_segment.cc: parse and serialize. A flag's mask has one
-- bit, which is tested by division; the flags of a byte are disjoint, so they are added.
use tcp_implementation.Base.{
  ℕ, ◌+◌, ◌-◌, ◌*◌, ◌/◌, not, List, [], ◌++◌, Option, none, some, ltb, ◌==◌, if◌then◌else◌, resize,
  ◌>>=◌,
}
use tcp_implementation.Parser.{
  NetParser, parser, ParseResult, bad_checksum, header_too_short, u8, u16, u32, remove_prefix,
  put_u8, put_u16, put_u32,
}
use tcp_implementation.Parser.Flags.{flag, flag_value}
use tcp_implementation.Checksum.{checksum, add, value}
use tcp_implementation.TcpSegment.{TcpHeader, TcpSegment}

-- `TCPHeader::LENGTH`.
abbrev pub header_length : ℕ
header_length = 20

-- `TCPHeader::parse(p)`: the fields that it sets, the parser and the result.
unfoldable pub parse_header : NetParser → TcpHeader × NetParser × ParseResult
parse_header p0 =
    let (sport, p1) = u16 p0 in
    let (dport, p2) = u16 p1 in
    let (seqno, p3) = u32 p2 in
    let (ackno, p4) = u32 p3 in
    let (off, p5) = u8 p4 in
    let (fl_b, p6) = u8 p5 in
    let (win, p7) = u16 p6 in
    let (cksum, p8) = u16 p7 in
    let (uptr, p9) = u16 p8 in
    let header : TcpHeader = record {
      sport = sport;
      dport = dport;
      seqno = record { raw_value = seqno };
      ackno = record { raw_value = ackno };
      doff = off / 16;
      urg = flag fl_b 32;
      ack = flag fl_b 16;
      psh = flag fl_b 8;
      rst = flag fl_b 4;
      syn = flag fl_b 2;
      fin = flag fl_b 1;
      win = win;
      cksum = cksum;
      uptr = uptr;
    } in
    let p' = remove_prefix p9 (off / 16 * 4 - header_length) in
    if ltb (off / 16) 5 then (header, p9, header_too_short) else (header, p', p'.error)

-- The byte of flags of `TCPHeader::serialize`.
abbrev pub flag_byte : TcpHeader → ℕ
flag_byte h =
    flag_value h.urg 32
    + flag_value h.ack 16
    + flag_value h.psh 8
    + flag_value h.rst 4
    + flag_value h.syn 2
    + flag_value h.fin 1

-- The fields of `TCPHeader::serialize`, before the string is resized.
unfoldable pub header_fields : TcpHeader → List ℕ
header_fields h =
    let ret = put_u16 [] h.sport in
    let ret = put_u16 ret h.dport in
    let ret = put_u32 ret h.seqno.raw_value in
    let ret = put_u32 ret h.ackno.raw_value in
    let ret = put_u8 ret (h.doff * 16) in
    let ret = put_u8 ret (flag_byte h) in
    let ret = put_u16 ret h.win in let ret = put_u16 ret h.cksum in put_u16 ret h.uptr

-- `TCPHeader::serialize()`; `none` where it throws.
unfoldable pub serialize_header : TcpHeader → Option (List ℕ)
serialize_header h = if ltb h.doff 5 then none else some (resize (4 * h.doff) 0 (header_fields h))

-- `TCPSegment::parse(buffer, datagram_layer_checksum)`.
unfoldable pub parse : TcpSegment → List ℕ → ℕ → TcpSegment × ParseResult
parse seg buffer datagram_layer_checksum =
    let (header, p, _) = parse_header (parser buffer) in
    if not (value (add (checksum datagram_layer_checksum) buffer) == 0)
    then (seg, bad_checksum)
    else (record { header = header; payload = p.buffer }, p.error)

-- The checksum of a segment whose header is `header`, with 0 for the checksum.
abbrev pub segment_checksum : ℕ → List ℕ → List ℕ → ℕ
segment_checksum datagram_layer_checksum header payload =
    value (add (add (checksum datagram_layer_checksum) header) payload)

abbrev pub with_cksum : TcpHeader → ℕ → TcpHeader
with_cksum h n = record h { cksum = n }

-- `TCPSegment::serialize(datagram_layer_checksum)`: the bytes of the buffer list; `none` where it
-- throws.
unfoldable pub serialize : TcpSegment → ℕ → Option (List ℕ)
serialize seg datagram_layer_checksum = do
  header ← serialize_header (with_cksum seg.header 0)
  out ←
      serialize_header
        (with_cksum seg.header (segment_checksum datagram_layer_checksum header seg.payload))
  some (out ++ seg.payload)
