-- ===== src/TcpSegment/Tests.antt =====
-- Segments written and read, and a header that is shorter than it should be.
use tcp_implementation.Base.{◌≡◌, refl, arith, [], ◌∷◌, some, true}
use tcp_implementation.Parser.{parser, no_error, header_too_short}
use tcp_implementation.Checksum.{checksum, add, fold_loop, value}
use tcp_implementation.TcpSegment.{TcpHeader, TcpSegment, default_header, default_segment}
use tcp_implementation.TcpSegment.Wire.{parse_header, parse, serialize, with_cksum}
use tcp_implementation.TcpSegment.Header.{FieldsFit, field_bytes}
use tcp_implementation.TcpSegment.RoundTrip.{
  IsSegment, segment_wire, segment_checksum_of, parse-serialize_segment, parse_short_header,
}

abbrev syn_segment : TcpSegment
syn_segment = record {
  header = record default_header { sport = 4242; dport = 80; syn = true; win = 1000 };
  payload = 104 ∷ 105 ∷ 33 ∷ [];
}

syn_segment-IsSegment : IsSegment syn_segment
syn_segment-IsSegment = ground arith

parse-serialize_segment_example :
    (serialize syn_segment 77
      ≡ some (segment_wire syn_segment (segment_checksum_of syn_segment 77)))
    × (parse default_segment (segment_wire syn_segment (segment_checksum_of syn_segment 77)) 77 ≡ (
      record syn_segment {
        header = with_cksum syn_segment.header (segment_checksum_of syn_segment 77);
      },
      no_error,
    ))
parse-serialize_segment_example =
    parse-serialize_segment default_segment syn_segment 77 syn_segment-IsSegment (omega arith)

-- A header of no words, whose checksum is right.
abbrev short_header : TcpHeader
short_header = record default_header { doff = 0; cksum = 65535 }

short_header-FieldsFit : FieldsFit short_header
short_header-FieldsFit = ground arith

short_header_checks : value (add (checksum 0) (field_bytes short_header [])) ≡ 0
unfolding value add fold_loop
short_header_checks = refl

short_header_taken :
    (parse_header (parser (field_bytes short_header []))
      ≡ (short_header, parser [], header_too_short))
    × (parse default_segment (field_bytes short_header []) 0
        ≡ (record { header = short_header; payload = [] }, no_error))
short_header_taken =
    parse_short_header default_segment short_header [] 0 short_header-FieldsFit (omega arith)
      short_header_checks
