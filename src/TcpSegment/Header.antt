-- ===== src/TcpSegment/Header.antt =====
-- The round trip of tcp_header.cc: what `parse` makes of the bytes that `serialize` wrote.
use tcp_implementation.Base.{
  ℕ, ◌+◌, ◌-◌, ◌*◌, ◌/◌, ◌%◌, ◌≤◌, ◌<◌, ◌≡◌, List, [], ◌∷◌, ◌++◌, some, ltb, ge→ltb, if◌then◌else◌,
  arith, take-ge, length-replicate, replicate, ap, ◌∙◌,
}
use tcp_implementation.Parser.{
  parser, no_error, header_too_short, put_u8, put_u16, put_u32, remove_prefix,
}
use tcp_implementation.Parser.Flags.{flag, digit, flag_value-digit, digit_le, digit-flag}
use tcp_implementation.Parser.Bytes.{word16, word32, u8_lem, u16_lem, u32_lem, remove_prefix_lem}
use tcp_implementation.TcpSegment.{TcpHeader}
use tcp_implementation.TcpSegment.Wire.{flag_byte, parse_header, header_fields, serialize_header}

-- The fields fit their types, and `doff` its four bits.
pub record FieldsFit (h : TcpHeader) : Type 0 where
  pub sport_fits : h.sport < 65536
  pub dport_fits : h.dport < 65536
  pub seqno_fits : h.seqno.raw_value < 4294967296
  pub ackno_fits : h.ackno.raw_value < 4294967296
  pub doff_fits : h.doff < 16
  pub win_fits : h.win < 65536
  pub cksum_fits : h.cksum < 65536
  pub uptr_fits : h.uptr < 65536

pub record IsHeader (h : TcpHeader) : Type 0 where
  pub fields : FieldsFit h
  pub doff_least : 5 ≤ h.doff

-- The bytes of the fields, one by one.
abbrev pub field_bytes : TcpHeader → List ℕ → List ℕ
field_bytes h rest =
    (h.sport / 256 % 256)
    ∷ (h.sport % 256)
    ∷ (h.dport / 256 % 256)
    ∷ (h.dport % 256)
    ∷ (h.seqno.raw_value / 16777216 % 256)
    ∷ (h.seqno.raw_value / 65536 % 256)
    ∷ (h.seqno.raw_value / 256 % 256)
    ∷ (h.seqno.raw_value % 256)
    ∷ (h.ackno.raw_value / 16777216 % 256)
    ∷ (h.ackno.raw_value / 65536 % 256)
    ∷ (h.ackno.raw_value / 256 % 256)
    ∷ (h.ackno.raw_value % 256)
    ∷ (h.doff * 16 % 256)
    ∷ (flag_byte h % 256)
    ∷ (h.win / 256 % 256)
    ∷ (h.win % 256)
    ∷ (h.cksum / 256 % 256)
    ∷ (h.cksum % 256)
    ∷ (h.uptr / 256 % 256)
    ∷ (h.uptr % 256)
    ∷ rest

header_fields_lem : (h : TcpHeader) → header_fields h ≡ field_bytes h []
unfolding header_fields put_u8 put_u16 put_u32
header_fields_lem h = ground arith

nibble : (n : ℕ) → n < 16 → n * 16 % 256 % 256 / 16 ≡ n
nibble n h = omega arith

-- The flags of the byte of flags, and `parse`'s reading of them.
module _ (h : TcpHeader) where
  byte : ℕ
  byte = flag_byte h % 256 % 256

  byte_digits :
      byte
      ≡ digit h.urg * 32
        + digit h.ack * 16
        + digit h.psh * 8
        + digit h.rst * 4
        + digit h.syn * 2
        + digit h.fin
  unfolding byte
  byte_digits = omega (
    arith,
    flag_value-digit h.urg 32,
    flag_value-digit h.ack 16,
    flag_value-digit h.psh 8,
    flag_value-digit h.rst 4,
    flag_value-digit h.syn 2,
    flag_value-digit h.fin 1,
    digit_le h.urg,
    digit_le h.ack,
    digit_le h.psh,
    digit_le h.rst,
    digit_le h.syn,
    digit_le h.fin,
  )

  flag-byte :
      (flag byte 32 ≡ h.urg)
      × (flag byte 16 ≡ h.ack)
      × (flag byte 8 ≡ h.psh)
      × (flag byte 4 ≡ h.rst)
      × (flag byte 2 ≡ h.syn)
      × (flag byte 1 ≡ h.fin)
  flag-byte =
      let e = byte_digits in
      let u = digit_le h.urg in
      let a = digit_le h.ack in
      let p = digit_le h.psh in
      let r = digit_le h.rst in
      let s = digit_le h.syn in
      let f = digit_le h.fin in
      (
        digit-flag h.urg (byte / 32 % 2) (omega arith),
        digit-flag h.ack (byte / 16 % 2) (omega arith),
        digit-flag h.psh (byte / 8 % 2) (omega arith),
        digit-flag h.rst (byte / 4 % 2) (omega arith),
        digit-flag h.syn (byte / 2 % 2) (omega arith),
        digit-flag h.fin (byte / 1 % 2) (omega arith),
      )

-- What `parse` makes of the bytes of the fields.
pub parse_header_lem :
    (h : TcpHeader) (rest : List ℕ)
    → FieldsFit h
    → let p = remove_prefix (parser rest) (h.doff * 4 - 20) in
      parse_header (parser (field_bytes h rest))
      ≡ (if ltb h.doff 5 then (h, parser rest, header_too_short) else (h, p, p.error))
unfolding parse_header byte
parse_header_lem h rest v =
    let f = flag-byte h in
    simp (
      u8_lem,
      u16_lem,
      u32_lem,
      word16 h.sport v.sport_fits,
      word16 h.dport v.dport_fits,
      word32 h.seqno.raw_value v.seqno_fits,
      word32 h.ackno.raw_value v.ackno_fits,
      nibble h.doff v.doff_fits,
      word16 h.win v.win_fits,
      word16 h.cksum v.cksum_fits,
      word16 h.uptr v.uptr_fits,
      f.0,
      f.1,
      f.2,
      f.3,
      f.4,
      f.5,
    )

-- The padding up to the advertised length of the header.
abbrev pub padding : TcpHeader → List ℕ
padding h = replicate (4 * h.doff - 20) 0

pub serialize_header_lem :
    (h : TcpHeader) → IsHeader h → serialize_header h ≡ some (field_bytes h (padding h))
unfolding serialize_header
serialize_header_lem h v =
    ground (arith, header_fields_lem h, v.doff_least, take-ge (4 * h.doff) (field_bytes h []))

-- `parse` reads back the header that `serialize` wrote, whatever follows it, and leaves what follows.
pub parse_header-serialize_header :
    (h : TcpHeader) (rest : List ℕ)
    → IsHeader h
    → parse_header (parser (field_bytes h (padding h ++ rest))) ≡ (h, parser rest, no_error)
parse_header-serialize_header h rest v =
    let e =
      remove_prefix_lem (padding h) rest (h.doff * 4 - 20)
        (length-replicate (4 * h.doff - 20) 0 ∙ omega arith) in
    parse_header_lem h (padding h ++ rest) v.fields
    ∙ rw (ge→ltb h.doff 5 v.doff_least) (ap (λ p. (h, p, p.error)) e)
