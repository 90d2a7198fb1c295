-- ===== src/Ipv4/Tests.antt =====
-- A datagram written and read, and one with a wrong checksum.
use tcp_implementation.Base.{◌≡◌, refl, arith, [], ◌∷◌, some, ◌++◌}
use tcp_implementation.Parser.{parser, no_error, bad_checksum}
use tcp_implementation.Checksum.{checksum, add, fold_loop, value}
use tcp_implementation.Ipv4.{
  Ipv4Datagram, default_header, parse_header, parse, serialize, with_cksum,
}
use tcp_implementation.Ipv4.Header.{field_bytes, padding}
use tcp_implementation.Ipv4.RoundTrip.{
  IsDatagram, datagram_wire, checksum_of, parse-serialize_datagram, parse_unverified,
}

abbrev greeting : Ipv4Datagram
greeting = record {
  header = record default_header { len = 22; src = 167772161; dst = 167772162 };
  payload = 104 ∷ 105 ∷ [];
}

greeting-IsDatagram : IsDatagram greeting
greeting-IsDatagram = ground arith

parse-serialize_datagram_example :
    (serialize greeting ≡ some (datagram_wire greeting))
    × (parse (datagram_wire greeting) ≡ (
      record greeting { header = with_cksum greeting.header (checksum_of greeting.header) },
      no_error,
    ))
parse-serialize_datagram_example = parse-serialize_datagram greeting greeting-IsDatagram

greeting_sum :
    value (add (checksum 0) (field_bytes greeting.header (padding greeting.header))) ≡ 59103
unfolding value add fold_loop
greeting_sum = refl

-- The checksum of `greeting` is zero, which is not the right one.
parse_unverified_example :
    (parse_header default_header
        (parser (field_bytes greeting.header (padding greeting.header ++ greeting.payload)))
      ≡ (greeting.header, parser greeting.payload, bad_checksum))
    × (parse (field_bytes greeting.header (padding greeting.header ++ greeting.payload))
        ≡ (greeting, no_error))
parse_unverified_example =
    parse_unverified greeting greeting-IsDatagram (λ e. absurd (omega (arith, e, greeting_sum)))
