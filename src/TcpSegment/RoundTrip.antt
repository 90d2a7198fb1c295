-- ===== src/TcpSegment/RoundTrip.antt =====
-- The round trip of tcp_segment.cc, the checksum included, and what `parse` does not check.
use tcp_implementation.Base.{
  ℕ, ◌+◌, ◌-◌, ◌*◌, ◌<◌, ◌≡◌, refl, sym, List, ◌++◌, some, lt→ltb, arith, length, length-append,
  length-replicate, replicate, ap, ◌∙◌, All, All-append, zero, suc,
}
use tcp_implementation.Parser.{parser, no_error, header_too_short}
use tcp_implementation.Checksum.{checksum, add, value}
use tcp_implementation.Checksum.Laws.{
  IsByte, word_sum, word_sum_le, checksum_verifies, add-append, value-lt,
}
use tcp_implementation.TcpSegment.{TcpHeader, TcpSegment}
use tcp_implementation.TcpSegment.Wire.{
  parse_header, parse, serialize, segment_checksum, with_cksum,
}
use tcp_implementation.TcpSegment.Header.{
  parse_header_lem, FieldsFit, IsHeader, field_bytes, padding, serialize_header_lem,
  parse_header-serialize_header,
}

-- The bytes of a segment whose checksum field holds `n`.
abbrev pub segment_wire : TcpSegment → ℕ → List ℕ
segment_wire seg n = field_bytes (with_cksum seg.header n) (padding seg.header ++ seg.payload)

-- A segment with fields that fit, of bytes, within the length of an IPv4 datagram.
pub record IsSegment (seg : TcpSegment) : Type 0 where
  pub header : IsHeader seg.header
  pub bytes : All IsByte seg.payload
  pub short : 4 * seg.header.doff + length seg.payload < 65536

with_cksum-IsHeader : (h : TcpHeader) (n : ℕ) → n < 65536 → IsHeader h → IsHeader (with_cksum h n)
with_cksum-IsHeader h n fits v = ground (arith, v)

replicate-IsByte : (n : ℕ) → All IsByte (replicate n 0)
replicate-IsByte zero = tt
replicate-IsByte (suc n) = (omega arith, replicate-IsByte n)

wire-IsByte : (seg : TcpSegment) (n : ℕ) → IsSegment seg → All IsByte (segment_wire seg n)
wire-IsByte seg n v =
    let rest =
      All-append IsByte (padding seg.header) seg.payload
        (replicate-IsByte (4 * seg.header.doff - 20)) v.bytes in
    ground (arith, rest)

-- The checksum field is a word of the sum.
word_sum-wire :
    (seg : TcpSegment) (n : ℕ)
    → n < 65536
    → word_sum (segment_wire seg n) ≡ word_sum (segment_wire seg 0) + n
word_sum-wire seg n h = omega arith

pub length-segment_wire :
    (seg : TcpSegment) (n : ℕ)
    → IsSegment seg
    → length (segment_wire seg n) ≡ 4 * seg.header.doff + length seg.payload
length-segment_wire seg n v = omega (
  arith,
  length-append (padding seg.header) seg.payload,
  length-replicate {A = ℕ} (4 * seg.header.doff - 20) 0,
)

-- The checksum that `serialize` computes.
abbrev pub segment_checksum_of : TcpSegment → ℕ → ℕ
segment_checksum_of seg datagram_layer_checksum =
    value (add (checksum datagram_layer_checksum) (segment_wire seg 0))

-- The header's bytes come first in the sum.
checksum-append :
    (seg : TcpSegment) (pseudo : ℕ)
    → segment_checksum pseudo
        (field_bytes (with_cksum seg.header 0) (padding seg.header))
        seg.payload
      ≡ segment_checksum_of seg pseudo
checksum-append seg pseudo = ap value (
    sym (
      add-append (checksum pseudo) (field_bytes (with_cksum seg.header 0) (padding seg.header))
        seg.payload))

-- `serialize` yields the header with the checksum of the whole, and the payload.
pub serialize_segment :
    (seg : TcpSegment) (pseudo : ℕ)
    → IsSegment seg
    → serialize seg pseudo ≡ some (segment_wire seg (segment_checksum_of seg pseudo))
unfolding serialize
serialize_segment seg pseudo v =
    let c = segment_checksum_of seg pseudo in
    let zeroed = with_cksum-IsHeader seg.header 0 (omega arith) v.header in
    let summed = with_cksum-IsHeader seg.header c (value-lt _) v.header in
    rw (serialize_header_lem (with_cksum seg.header 0) zeroed) (
      rw (checksum-append seg pseudo)
        (rw (serialize_header_lem (with_cksum seg.header c) summed) refl))

wire-verifies :
    (seg : TcpSegment) (pseudo : ℕ)
    → IsSegment seg
    → pseudo < 1073741824
    → value (add (checksum pseudo) (segment_wire seg (segment_checksum_of seg pseudo))) ≡ 0
wire-verifies seg pseudo v small =
    let c = segment_checksum_of seg pseudo in
    let zeroed = wire-IsByte seg 0 v in
    checksum_verifies pseudo (segment_wire seg 0) (segment_wire seg c) zeroed (wire-IsByte seg c v)
      (omega (arith, word_sum_le (segment_wire seg 0) zeroed, length-segment_wire seg 0 v, v.short))
      (word_sum-wire seg c (value-lt _))

-- `serialize` yields bytes, and `parse` with the same pseudo-checksum reads back from them the segment,
-- with its checksum in the header, and no error. The fields fit their types, the segment an IPv4
-- datagram, and the pseudo-checksum 30 bits.
pub parse-serialize_segment :
    (old seg : TcpSegment) (pseudo : ℕ)
    → IsSegment seg
    → pseudo < 1073741824
    → let c = segment_checksum_of seg pseudo in
      (serialize seg pseudo ≡ some (segment_wire seg c))
      × (parse old (segment_wire seg c) pseudo
          ≡ (record seg { header = with_cksum seg.header c }, no_error))
unfolding parse
parse-serialize_segment old seg pseudo v small =
    let c = segment_checksum_of seg pseudo in
    let summed = with_cksum-IsHeader seg.header c (value-lt _) v.header in
    (
      serialize_segment seg pseudo v,
      rw (parse_header-serialize_header (with_cksum seg.header c) seg.payload summed)
          (rw (wire-verifies seg pseudo v small) refl),
    )

-- `parse` does not look at the result for the header: bytes with a right checksum, whose header says
-- that it is shorter than a header, are taken without an error.
pub parse_short_header :
    (old : TcpSegment) (h : TcpHeader) (payload : List ℕ) (pseudo : ℕ)
    → FieldsFit h
    → h.doff < 5
    → value (add (checksum pseudo) (field_bytes h payload)) ≡ 0
    → (parse_header (parser (field_bytes h payload)) ≡ (h, parser payload, header_too_short))
      × (parse old (field_bytes h payload) pseudo
          ≡ (record { header = h; payload = payload }, no_error))
unfolding parse
parse_short_header old h payload pseudo v short ok =
    let e = parse_header_lem h payload v ∙ rw (lt→ltb h.doff 5 short) refl in (e, rw e (rw ok refl))
