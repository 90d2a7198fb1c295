-- ===== src/Arp/RoundTrip.antt =====
-- The round trip of arp_message.cc.
use tcp_implementation.Base.{ℕ, ◌/◌, ◌%◌, ◌<◌, ◌≡◌, ap, List, [], ◌∷◌, arith, true, some}
use tcp_implementation.Parser.{no_error, put_u8, put_u16, put_u32}
use tcp_implementation.Parser.Bytes.{word8, word16, word32, u8_lem, u16_lem, u32_lem}
use tcp_implementation.Ethernet.{put_address}
use tcp_implementation.Ethernet.RoundTrip.{IsAddress, address_bytes, read_address_lem}
use tcp_implementation.Arp.{ArpMessage, supported, parse, message_fields, serialize}

-- A supported message whose addresses fit their types.
pub record IsMessage (m : ArpMessage) : Type 0 where
  pub is_supported : supported m ≡ true
  pub sender : IsAddress m.sender_ethernet_address
  pub sender_ip : m.sender_ip_address < 4294967296
  pub target : IsAddress m.target_ethernet_address
  pub target_ip : m.target_ip_address < 4294967296

-- The bytes of a 32-bit number.
abbrev number_bytes : ℕ → List ℕ → List ℕ
number_bytes n rest = (n / 16777216 % 256) ∷ (n / 65536 % 256) ∷ (n / 256 % 256) ∷ (n % 256) ∷ rest

-- The bytes of a message.
abbrev pub message_wire : ArpMessage → List ℕ
message_wire m =
    (m.hardware_type / 256 % 256)
    ∷ (m.hardware_type % 256)
    ∷ (m.protocol_type / 256 % 256)
    ∷ (m.protocol_type % 256)
    ∷ (m.hardware_address_size % 256)
    ∷ (m.protocol_address_size % 256)
    ∷ (m.opcode / 256 % 256)
    ∷ (m.opcode % 256)
    ∷ address_bytes m.sender_ethernet_address (
        number_bytes m.sender_ip_address
          (address_bytes m.target_ethernet_address (number_bytes m.target_ip_address [])))

message_fields_lem : (m : ArpMessage) → message_fields m ≡ message_wire m
unfolding message_fields put_address put_u8 put_u16 put_u32
message_fields_lem m = ground arith

pub serialize_message : (m : ArpMessage) → supported m ≡ true → serialize m ≡ some (message_wire m)
unfolding serialize
serialize_message m e = rw e (ap some (message_fields_lem m))

-- The numbers that a supported message has in its first fields.
supported_fits :
    (m : ArpMessage)
    → supported m ≡ true
    → (m.hardware_type < 65536)
      × (m.protocol_type < 65536)
      × (m.hardware_address_size < 256)
      × (m.protocol_address_size < 256)
      × (m.opcode < 65536)
unfolding supported
supported_fits m e = ground (arith, e)

-- `serialize` yields bytes for a supported message, and `parse` reads back from them the message,
-- whatever was in the object, with no error. The addresses fit their types.
pub parse-serialize_message :
    (old m : ArpMessage)
    → IsMessage m
    → (serialize m ≡ some (message_wire m)) × (parse old (message_wire m) ≡ (m, no_error))
unfolding parse supported
parse-serialize_message old m v =
    let fits = supported_fits m v.is_supported in
    (
      serialize_message m v.is_supported,
      simp (
        u8_lem,
        u16_lem,
        u32_lem,
        read_address_lem m.sender_ethernet_address _ v.sender,
        read_address_lem m.target_ethernet_address _ v.target,
        word16 m.hardware_type fits.0,
        word16 m.protocol_type fits.1,
        word8 m.hardware_address_size fits.2,
        word8 m.protocol_address_size fits.3,
        word16 m.opcode fits.4,
        word32 m.sender_ip_address v.sender_ip,
        word32 m.target_ip_address v.target_ip,
        v.is_supported,
      ),
    )
