-- ===== src/Arp/Tests.antt =====
-- A request written and read.
use tcp_implementation.Base.{arith}
use tcp_implementation.Arp.{ArpMessage, default_message, opcode_request, supported}
use tcp_implementation.Arp.RoundTrip.{IsMessage}

abbrev request : ArpMessage
request = record default_message {
  opcode = opcode_request;
  sender_ethernet_address = record { b0 = 2; b1 = 0; b2 = 0; b3 = 0; b4 = 0; b5 = 1 };
  sender_ip_address = 167772161;
  target_ip_address = 167772162;
}

request-IsMessage : IsMessage request
unfolding supported
request-IsMessage = ground arith
