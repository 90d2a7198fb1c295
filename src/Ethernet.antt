-- ===== src/Ethernet.antt =====
-- libsponge/tcp_helpers/ethernet_header.hh and .cc, ethernet_frame.hh and .cc. The loops over the six
-- bytes of an address are written out.
pub mod RoundTrip
mod Tests
use tcp_implementation.Base.{ℕ, Bool, List, [], ◌++◌, ltb, ◌==◌, ◌&&◌, if◌then◌else◌, length}
use tcp_implementation.Parser.{
  NetParser, parser, ParseResult, packet_too_short, u8, u16, put_u8, put_u16,
}

-- `EthernetAddress`, an array of six bytes.
pub record EthernetAddress : Type 0 where
  pub b0 : ℕ
  pub b1 : ℕ
  pub b2 : ℕ
  pub b3 : ℕ
  pub b4 : ℕ
  pub b5 : ℕ

-- `ETHERNET_BROADCAST`.
abbrev pub ethernet_broadcast : EthernetAddress
ethernet_broadcast = record { b0 = 255; b1 = 255; b2 = 255; b3 = 255; b4 = 255; b5 = 255 }

-- The value-initialized array, `{}`.
abbrev pub no_address : EthernetAddress
no_address = record { b0 = 0; b1 = 0; b2 = 0; b3 = 0; b4 = 0; b5 = 0 }

-- The equality of two arrays.
unfoldable pub same_address : EthernetAddress → EthernetAddress → Bool
same_address a b =
    (a.b0 == b.b0)
    && (a.b1 == b.b1)
    && (a.b2 == b.b2)
    && (a.b3 == b.b3)
    && (a.b4 == b.b4)
    && (a.b5 == b.b5)

-- The loop that reads an address.
unfoldable pub read_address : NetParser → EthernetAddress × NetParser
read_address p0 =
    let (b0, p1) = u8 p0 in
    let (b1, p2) = u8 p1 in
    let (b2, p3) = u8 p2 in
    let (b3, p4) = u8 p3 in
    let (b4, p5) = u8 p4 in
    let (b5, p6) = u8 p5 in (record { b0 = b0; b1 = b1; b2 = b2; b3 = b3; b4 = b4; b5 = b5 }, p6)

-- The loop that writes an address.
unfoldable pub put_address : List ℕ → EthernetAddress → List ℕ
put_address ret a =
    put_u8 (put_u8 (put_u8 (put_u8 (put_u8 (put_u8 ret a.b0) a.b1) a.b2) a.b3) a.b4) a.b5

-- `struct EthernetHeader` and its constants.
pub record EthernetHeader : Type 0 where
  pub dst : EthernetAddress
  pub src : EthernetAddress
  pub ether_type : ℕ

abbrev pub header_length : ℕ
header_length = 14

abbrev pub type_ipv4 : ℕ
type_ipv4 = 2048

abbrev pub type_arp : ℕ
type_arp = 2054

abbrev pub default_header : EthernetHeader
default_header = record { dst = no_address; src = no_address; ether_type = 0 }

-- `EthernetHeader::parse(p)` on the header `old`: the header, the parser and the result.
unfoldable pub parse_header : EthernetHeader → NetParser → EthernetHeader × NetParser × ParseResult
parse_header old p0 =
    let (dst, p1) = read_address p0 in
    let (src, p2) = read_address p1 in
    let (ether_type, p3) = u16 p2 in
    if ltb (length p0.buffer) header_length
    then (old, p0, packet_too_short)
    else (record { dst = dst; src = src; ether_type = ether_type }, p3, p3.error)

-- `EthernetHeader::serialize()`.
unfoldable pub serialize_header : EthernetHeader → List ℕ
serialize_header h = put_u16 (put_address (put_address [] h.dst) h.src) h.ether_type

-- `class EthernetFrame`.
pub record EthernetFrame : Type 0 where
  pub header : EthernetHeader
  pub payload : List ℕ

-- `EthernetFrame::parse(buffer)` on a new frame.
unfoldable pub parse : List ℕ → EthernetFrame × ParseResult
parse buffer =
    let (header, p, _) = parse_header default_header (parser buffer) in
    (record { header = header; payload = p.buffer }, p.error)

-- `EthernetFrame::serialize()`: the bytes of the buffer list.
unfoldable pub serialize : EthernetFrame → List ℕ
serialize f = serialize_header f.header ++ f.payload
