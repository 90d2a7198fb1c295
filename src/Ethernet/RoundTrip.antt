-- ===== src/Ethernet/RoundTrip.antt =====
-- The round trip of ethernet_frame.cc, and the frames that it does not refuse.
use tcp_implementation.Base.{
  ℕ, ◌/◌, ◌%◌, ◌<◌, ◌≡◌, refl, List, ◌∷◌, arith, length, ge→ltb, lt→ltb, true,
}
use tcp_implementation.Parser.{parser, no_error, packet_too_short, put_u8, put_u16}
use tcp_implementation.Parser.Bytes.{word8, word16, u8_lem, u16_lem}
use tcp_implementation.Ethernet.{
  EthernetAddress, EthernetFrame, default_header, same_address, read_address, put_address,
  parse_header, serialize_header, parse, serialize,
}

-- Six bytes.
pub record IsAddress (a : EthernetAddress) : Type 0 where
  pub fits0 : a.b0 < 256
  pub fits1 : a.b1 < 256
  pub fits2 : a.b2 < 256
  pub fits3 : a.b3 < 256
  pub fits4 : a.b4 < 256
  pub fits5 : a.b5 < 256

-- The bytes of an address, one by one.
abbrev pub address_bytes : EthernetAddress → List ℕ → List ℕ
address_bytes a rest =
    (a.b0 % 256) ∷ (a.b1 % 256) ∷ (a.b2 % 256) ∷ (a.b3 % 256) ∷ (a.b4 % 256) ∷ (a.b5 % 256) ∷ rest

pub read_address_lem :
    (a : EthernetAddress) (rest : List ℕ)
    → IsAddress a
    → read_address (parser (address_bytes a rest)) ≡ (a, parser rest)
unfolding read_address
read_address_lem a rest v = simp (
  u8_lem,
  word8 a.b0 v.fits0,
  word8 a.b1 v.fits1,
  word8 a.b2 v.fits2,
  word8 a.b3 v.fits3,
  word8 a.b4 v.fits4,
  word8 a.b5 v.fits5,
)

pub same_address_refl : (a : EthernetAddress) → same_address a a ≡ true
unfolding same_address
same_address_refl a = ground arith

pub record IsFrame (f : EthernetFrame) : Type 0 where
  pub dst : IsAddress f.header.dst
  pub src : IsAddress f.header.src
  pub type_fits : f.header.ether_type < 65536

-- The bytes of a frame.
abbrev pub frame_wire : EthernetFrame → List ℕ
frame_wire f = address_bytes f.header.dst (
    address_bytes f.header.src
      ((f.header.ether_type / 256 % 256) ∷ (f.header.ether_type % 256) ∷ f.payload))

serialize_frame : (f : EthernetFrame) → serialize f ≡ frame_wire f
unfolding serialize serialize_header put_address put_u8 put_u16
serialize_frame f = ground arith

-- `parse` reads back from the bytes that `serialize` writes the frame, with no error. The fields fit
-- their types.
pub parse-serialize_frame : (f : EthernetFrame) → IsFrame f → parse (serialize f) ≡ (f, no_error)
unfolding parse parse_header
parse-serialize_frame f v = rw (serialize_frame f) (
    simp (
      read_address_lem f.header.dst _ v.dst,
      read_address_lem f.header.src _ v.src,
      u16_lem,
      word16 f.header.ether_type v.type_fits,
      ge→ltb (length (frame_wire f)) 14 (omega arith),
    ))

-- `parse` does not look at the result for the header: fewer bytes than a header, which the header's own
-- `parse` refuses, are taken without an error, as a frame of the all-zero header with all of them as
-- its payload.
pub parse_short_frame :
    (bytes : List ℕ)
    → length bytes < 14
    → (parse_header default_header (parser bytes)
        ≡ (default_header, parser bytes, packet_too_short))
      × (parse bytes ≡ (record { header = default_header; payload = bytes }, no_error))
unfolding parse parse_header
parse_short_frame bytes h = rw (lt→ltb (length bytes) 14 h) (refl, refl)
