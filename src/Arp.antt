-- ===== src/Arp.antt =====
-- libsponge/tcp_helpers/arp_message.hh and .cc.
pub mod RoundTrip
mod Tests
use tcp_implementation.Base.{
  ℕ, Bool, true, not, List, [], Option, none, some, ltb, ◌==◌, ◌&&◌, ◌||◌, if◌then◌else◌, length,
}
use tcp_implementation.Parser.{
  NetParser, parser, ParseResult, packet_too_short, unsupported, u8, u16, u32, put_u8, put_u16,
  put_u32,
}
use tcp_implementation.Ethernet.{EthernetAddress, no_address, type_ipv4, read_address, put_address}

-- The constants of `ARPMessage`.
abbrev pub message_length : ℕ
message_length = 28

abbrev pub type_ethernet : ℕ
type_ethernet = 1

abbrev pub opcode_request : ℕ
opcode_request = 1

abbrev pub opcode_reply : ℕ
opcode_reply = 2

-- `struct ARPMessage`.
pub record ArpMessage : Type 0 where
  pub hardware_type : ℕ
  pub protocol_type : ℕ
  pub hardware_address_size : ℕ
  pub protocol_address_size : ℕ
  pub opcode : ℕ
  pub sender_ethernet_address : EthernetAddress
  pub sender_ip_address : ℕ
  pub target_ethernet_address : EthernetAddress
  pub target_ip_address : ℕ

-- The default member initializers.
abbrev pub default_message : ArpMessage
default_message = record {
  hardware_type = type_ethernet;
  protocol_type = type_ipv4;
  hardware_address_size = 6;
  protocol_address_size = 4;
  opcode = 0;
  sender_ethernet_address = no_address;
  sender_ip_address = 0;
  target_ethernet_address = no_address;
  target_ip_address = 0;
}

-- `supported()`.
unfoldable pub supported : ArpMessage → Bool
supported m =
    (m.hardware_type == type_ethernet)
    && (m.protocol_type == type_ipv4)
    && (m.hardware_address_size == 6)
    && (m.protocol_address_size == 4)
    && ((m.opcode == opcode_request) || (m.opcode == opcode_reply))

-- `parse(buffer)` on the message `old`: the message and the result.
unfoldable pub parse : ArpMessage → List ℕ → ArpMessage × ParseResult
parse old buffer =
    let p0 = parser buffer in
    let (hardware_type, p1) = u16 p0 in
    let (protocol_type, p2) = u16 p1 in
    let (hardware_address_size, p3) = u8 p2 in
    let (protocol_address_size, p4) = u8 p3 in
    let (opcode, p5) = u16 p4 in
    let head : ArpMessage = record old {
      hardware_type = hardware_type;
      protocol_type = protocol_type;
      hardware_address_size = hardware_address_size;
      protocol_address_size = protocol_address_size;
      opcode = opcode;
    } in
    let (sender_ethernet_address, p6) = read_address p5 in
    let (sender_ip_address, p7) = u32 p6 in
    let (target_ethernet_address, p8) = read_address p7 in
    let (target_ip_address, p9) = u32 p8 in
    let whole : ArpMessage = record head {
      sender_ethernet_address = sender_ethernet_address;
      sender_ip_address = sender_ip_address;
      target_ethernet_address = target_ethernet_address;
      target_ip_address = target_ip_address;
    } in
    if ltb (length buffer) message_length
    then (old, packet_too_short)
    else if not (supported head)
    then (head, unsupported)
    else (whole, p9.error)

-- The string that `serialize` writes for a supported message.
unfoldable pub message_fields : ArpMessage → List ℕ
message_fields m =
    let ret = put_u16 [] m.hardware_type in
    let ret = put_u16 ret m.protocol_type in
    let ret = put_u8 ret m.hardware_address_size in
    let ret = put_u8 ret m.protocol_address_size in
    let ret = put_u16 ret m.opcode in
    let ret = put_address ret m.sender_ethernet_address in
    let ret = put_u32 ret m.sender_ip_address in
    let ret = put_address ret m.target_ethernet_address in put_u32 ret m.target_ip_address

-- `serialize()`; `none` where it throws.
unfoldable pub serialize : ArpMessage → Option (List ℕ)
serialize m = if not (supported m) then none else some (message_fields m)
