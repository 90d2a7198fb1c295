-- ===== src/Ipv4/RoundTrip.antt =====
-- The round trip of ipv4_datagram.cc, the checksum included, and what `parse` does not check.
use tcp_implementation.Base.{
  ℕ, ◌+◌, ◌-◌, ◌*◌, ◌<◌, ◌≡◌, ◌≢◌, refl, true, List, ◌++◌, some, ◌==◌, arith, length,
  length-replicate, replicate, ◌∙◌, All, zero, suc,
}
use tcp_implementation.Parser.{parser, no_error, bad_checksum}
use tcp_implementation.Checksum.{checksum, add, value}
use tcp_implementation.Checksum.Laws.{IsByte, word_sum, word_sum_le, checksum_verifies, value-lt}
use tcp_implementation.Ipv4.{
  Ipv4Header, Ipv4Datagram, default_header, payload_length, parse_header, parse, serialize,
  with_cksum,
}
use tcp_implementation.Ipv4.Header.{
  IsHeader, field_bytes, padding, serialize_header_lem, parse_header-serialize_header,
}

-- A datagram with a header whose length is the true one.
pub record IsDatagram (d : Ipv4Datagram) : Type 0 where
  pub header : IsHeader d.header
  pub true_len : d.header.len ≡ 4 * d.header.hlen + length d.payload

abbrev pub header_bytes : Ipv4Header → ℕ → List ℕ
header_bytes h n = field_bytes (with_cksum h n) (padding h)

-- The checksum that `serialize` computes.
abbrev pub checksum_of : Ipv4Header → ℕ
checksum_of h = value (add (checksum 0) (header_bytes h 0))

-- The bytes of a datagram with its checksum.
abbrev pub datagram_wire : Ipv4Datagram → List ℕ
datagram_wire d = header_bytes d.header (checksum_of d.header) ++ d.payload

with_cksum-IsHeader : (h : Ipv4Header) (n : ℕ) → n < 65536 → IsHeader h → IsHeader (with_cksum h n)
with_cksum-IsHeader h n fits v = ground (arith, v)

replicate-IsByte : (n : ℕ) → All IsByte (replicate n 0)
replicate-IsByte zero = tt
replicate-IsByte (suc n) = (omega arith, replicate-IsByte n)

header_bytes-IsByte : (h : Ipv4Header) (n : ℕ) → All IsByte (header_bytes h n)
header_bytes-IsByte h n = ground (arith, replicate-IsByte (4 * h.hlen - 20))

-- The checksum field is a word of the sum.
word_sum-header_bytes :
    (h : Ipv4Header) (n : ℕ)
    → n < 65536
    → word_sum (header_bytes h n) ≡ word_sum (header_bytes h 0) + n
word_sum-header_bytes h n fits = omega arith

pub header_verifies :
    (h : Ipv4Header) → IsHeader h → value (add (checksum 0) (header_bytes h (checksum_of h))) ≡ 0
header_verifies h v =
    let c = checksum_of h in
    let zeroed = header_bytes-IsByte h 0 in
    let l = length-replicate {A = ℕ} (4 * h.hlen - 20) 0 in
    checksum_verifies 0 (header_bytes h 0) (header_bytes h c) zeroed (header_bytes-IsByte h c)
      (omega (arith, word_sum_le (header_bytes h 0) zeroed, v.fields.hlen_fits))
      (word_sum-header_bytes h c (value-lt _))

true_payload_length : (d : Ipv4Datagram) → IsDatagram d → length d.payload ≡ payload_length d.header
true_payload_length d v = omega (arith, v.true_len, v.header.fields.len_fits)

serialize_datagram : (d : Ipv4Datagram) → IsDatagram d → serialize d ≡ some (datagram_wire d)
unfolding serialize
serialize_datagram d v =
    let c = checksum_of d.header in
    let zeroed = with_cksum-IsHeader d.header 0 (omega arith) v.header in
    let summed = with_cksum-IsHeader d.header c (value-lt _) v.header in
    let sized : (length d.payload == payload_length d.header) ≡ true =
      ground (arith, true_payload_length d v) in
    rw sized (
      rw (serialize_header_lem (with_cksum d.header 0) zeroed)
        (rw (serialize_header_lem (with_cksum d.header c) summed) refl))

-- `serialize` yields bytes, and `parse` reads back from them the datagram, with its checksum in the
-- header, and no error. The fields fit their types, the version is 4, the header has five words or
-- more, and the length that it states is the true one.
pub parse-serialize_datagram :
    (d : Ipv4Datagram)
    → IsDatagram d
    → (serialize d ≡ some (datagram_wire d))
      × (parse (datagram_wire d)
          ≡ (record d { header = with_cksum d.header (checksum_of d.header) }, no_error))
unfolding parse
parse-serialize_datagram d v =
    let h = with_cksum d.header (checksum_of d.header) in
    let read =
      parse_header-serialize_header default_header h d.payload
        (with_cksum-IsHeader d.header (checksum_of d.header) (value-lt _) v.header) v.true_len in
    let sized : (length d.payload == payload_length d.header) ≡ true =
      ground (arith, true_payload_length d v) in
    (serialize_datagram d v, rw read (rw sized refl))

-- The checksum that a datagram had does not matter.
pub rechecked-IsDatagram :
    (d : Ipv4Datagram)
    → IsDatagram d
    → IsDatagram (record d { header = with_cksum d.header (checksum_of d.header) })
rechecked-IsDatagram d v = record {
  header = with_cksum-IsHeader d.header (checksum_of d.header) (value-lt _) v.header;
  true_len = v.true_len;
}

-- `parse` does not look at the result for the header: a datagram whose checksum is wrong in its header,
-- which the header's own `parse` notices, is taken without an error.
pub parse_unverified :
    (d : Ipv4Datagram)
    → IsDatagram d
    → value (add (checksum 0) (field_bytes d.header (padding d.header))) ≢ 0
    → (parse_header default_header (parser (field_bytes d.header (padding d.header ++ d.payload)))
        ≡ (d.header, parser d.payload, bad_checksum))
      × (parse (field_bytes d.header (padding d.header ++ d.payload)) ≡ (d, no_error))
unfolding parse
parse_unverified d v wrong =
    let read =
      parse_header-serialize_header default_header d.header d.payload v.header v.true_len in
    let sized : (length d.payload == payload_length d.header) ≡ true =
      ground (arith, true_payload_length d v) in
    (read ∙ ground (arith, wrong), rw read (rw sized refl))
