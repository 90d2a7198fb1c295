-- ===== src/Ipv4/Header.antt =====
-- What ipv4_header.cc reads back of a header that it wrote.
use tcp_implementation.Base.{
  ℕ, ◌+◌, ◌-◌, ◌*◌, ◌/◌, ◌%◌, ◌≤◌, ◌<◌, ◌≡◌, List, [], ◌∷◌, ◌++◌, some, ge→ltb, ◌==◌, if◌then◌else◌,
  arith, length, take, take-ge, length-replicate, replicate, ◌∙◌, length-append, take-append,
}
use tcp_implementation.Parser.{parser, no_error, bad_checksum, put_u8, put_u16, put_u32}
use tcp_implementation.Parser.Bytes.{
  word8, u8_lem, u16_lem, u32_lem, remove_prefix_lem, word16, word32,
}
use tcp_implementation.Parser.Flags.{
  flag, flag_value, digit, flag_value-digit, digit_le, digit-flag,
}
use tcp_implementation.Checksum.{checksum, add, value}
use tcp_implementation.Ipv4.{
  Ipv4Header, check_header, parse_header, header_fields, serialize_header,
}

-- The fields fit their types and their bits.
pub record FieldsFit (h : Ipv4Header) : Type 0 where
  pub ver_fits : h.ver < 16
  pub hlen_fits : h.hlen < 16
  pub tos_fits : h.tos < 256
  pub len_fits : h.len < 65536
  pub id_fits : h.id < 65536
  pub offset_fits : h.offset < 8192
  pub ttl_fits : h.ttl < 256
  pub proto_fits : h.proto < 256
  pub cksum_fits : h.cksum < 65536
  pub src_fits : h.src < 4294967296
  pub dst_fits : h.dst < 4294967296

-- A header of version 4, of five words or more.
pub record IsHeader (h : Ipv4Header) : Type 0 where
  pub fields : FieldsFit h
  pub version : h.ver ≡ 4
  pub hlen_least : 5 ≤ h.hlen

-- The word of flags and offset.
abbrev pub fo_val : Ipv4Header → ℕ
fo_val h = flag_value h.df 16384 + flag_value h.mf 8192 + h.offset % 8192

-- The bytes of the fields, one by one.
abbrev pub field_bytes : Ipv4Header → List ℕ → List ℕ
field_bytes h rest =
    ((h.ver * 16 % 256 + h.hlen % 16) % 256)
    ∷ (h.tos % 256)
    ∷ (h.len / 256 % 256)
    ∷ (h.len % 256)
    ∷ (h.id / 256 % 256)
    ∷ (h.id % 256)
    ∷ (fo_val h / 256 % 256)
    ∷ (fo_val h % 256)
    ∷ (h.ttl % 256)
    ∷ (h.proto % 256)
    ∷ (h.cksum / 256 % 256)
    ∷ (h.cksum % 256)
    ∷ (h.src / 16777216 % 256)
    ∷ (h.src / 65536 % 256)
    ∷ (h.src / 256 % 256)
    ∷ (h.src % 256)
    ∷ (h.dst / 16777216 % 256)
    ∷ (h.dst / 65536 % 256)
    ∷ (h.dst / 256 % 256)
    ∷ (h.dst % 256)
    ∷ rest

header_fields_lem : (h : Ipv4Header) → header_fields h ≡ field_bytes h []
unfolding header_fields put_u8 put_u16 put_u32
header_fields_lem h = ground arith

-- `parse`'s reading of the words that hold several fields.
module _ (h : Ipv4Header) (v : FieldsFit h) where
  first_byte :
      ((h.ver * 16 % 256 + h.hlen % 16) % 256 % 256 / 16 ≡ h.ver)
      × ((h.ver * 16 % 256 + h.hlen % 16) % 256 % 256 % 16 ≡ h.hlen)
  first_byte = (omega (arith, v.ver_fits, v.hlen_fits), omega (arith, v.ver_fits, v.hlen_fits))

  fo_read : ℕ
  fo_read = (fo_val h / 256 % 256 * 256 + fo_val h % 256) % 65536

  fo_digits : fo_read ≡ digit h.df * 16384 + digit h.mf * 8192 + h.offset
  unfolding fo_read
  fo_digits = omega (
    arith,
    v.offset_fits,
    flag_value-digit h.df 16384,
    flag_value-digit h.mf 8192,
    digit_le h.df,
    digit_le h.mf,
  )

  fo_parts : (flag fo_read 16384 ≡ h.df) × (flag fo_read 8192 ≡ h.mf) × (fo_read % 8192 ≡ h.offset)
  fo_parts =
      let e = fo_digits in
      let d = digit_le h.df in
      let m = digit_le h.mf in
      let o = v.offset_fits in
      (
        digit-flag h.df (fo_read / 16384 % 2) (omega arith),
        digit-flag h.mf (fo_read / 8192 % 2) (omega arith),
        omega arith,
      )

-- What `parse` makes of the bytes of the fields, up to its checks.
pub parse_header_lem :
    (old h : Ipv4Header) (rest : List ℕ)
    → FieldsFit h
    → let checked = check_header (field_bytes h rest) h (parser rest) in
      parse_header old (parser (field_bytes h rest)) ≡ (h, checked.0, checked.1)
unfolding parse_header fo_read
parse_header_lem old h rest v =
    let f = fo_parts h v in
    let b = first_byte h v in
    simp (
      u8_lem,
      u16_lem,
      u32_lem,
      b.0,
      b.1,
      word16 h.len v.len_fits,
      word16 h.id v.id_fits,
      word16 h.cksum v.cksum_fits,
      word32 h.src v.src_fits,
      word32 h.dst v.dst_fits,
      f.0,
      f.1,
      f.2,
      word8 h.tos v.tos_fits,
      word8 h.ttl v.ttl_fits,
      word8 h.proto v.proto_fits,
      ge→ltb (length (field_bytes h rest)) 20 (omega arith),
    )

-- The padding up to the advertised length of the header.
abbrev pub padding : Ipv4Header → List ℕ
padding h = replicate (4 * h.hlen - 20) 0

pub serialize_header_lem :
    (h : Ipv4Header) → IsHeader h → serialize_header h ≡ some (field_bytes h (padding h))
unfolding serialize_header
serialize_header_lem h v =
    ground
      (arith, header_fields_lem h, v.version, v.hlen_least, take-ge (4 * h.hlen) (field_bytes h []))

take-field_bytes :
    (h : Ipv4Header) (rest : List ℕ)
    → IsHeader h
    → take (4 * h.hlen) (field_bytes h (padding h ++ rest)) ≡ field_bytes h (padding h)
take-field_bytes h rest v =
    let l = length-replicate {A = ℕ} (4 * h.hlen - 20) 0 in
    take-append (4 * h.hlen) (field_bytes h (padding h)) rest (omega (arith, v.hlen_least))
    ∙ take-ge (4 * h.hlen) (field_bytes h (padding h)) (omega (arith, v.hlen_least))

-- What the checks make of a header that was written, with `rest` behind it: `parse` takes the header
-- off the buffer, and compares the checksum, if the length that it states is the true one.
pub parse_header-serialize_header :
    (old h : Ipv4Header) (rest : List ℕ)
    → IsHeader h
    → h.len ≡ 4 * h.hlen + length rest
    → parse_header old (parser (field_bytes h (padding h ++ rest))) ≡ (
      h,
      parser rest,
      (if value (add (checksum 0) (field_bytes h (padding h))) == 0
          then no_error
          else bad_checksum),
    )
unfolding check_header
parse_header-serialize_header old h rest v e =
    let l = length-replicate {A = ℕ} (4 * h.hlen - 20) 0 in
    let a = length-append (padding h) rest in
    let skip = remove_prefix_lem (padding h) rest (h.hlen * 4 - 20) (omega arith) in
    parse_header_lem old h (padding h ++ rest) v.fields
    ∙ ground (arith, v.version, v.hlen_least, e, skip, take-field_bytes h rest v)
