-- ===== src/NetworkInterface/Tests.antt =====
-- The theorems on network_interface.cc at inputs that meet their hypotheses.
use tcp_implementation.Base.{
  ◌≡◌, ◌<◌, ◌⊎◌, refl, arith, true, [], ◌∷◌, Option, none, some, find, assign,
}
use tcp_implementation.Address.{Address}
use tcp_implementation.Ipv4.{Ipv4Datagram, default_header}
use tcp_implementation.Ipv4.RoundTrip.{IsDatagram}
use tcp_implementation.Ethernet.{EthernetAddress, EthernetFrame, same_address, type_arp}
use tcp_implementation.Arp.{ArpMessage, default_message, opcode_reply, supported}
use tcp_implementation.Arp.RoundTrip.{IsMessage, message_wire}
use tcp_implementation.NetworkInterface.{
  NetworkInterface, new, make_frame, recv_frame, recv_buffers, tick, runs_on,
}
use tcp_implementation.NetworkInterface.Frames.{IsInterface, listens}
use tcp_implementation.NetworkInterface.Resolve.{
  with_waiting, with_request, with_learned, recv_frame_reply,
}
use tcp_implementation.NetworkInterface.Waiting.{IsAsking}
use tcp_implementation.NetworkInterface.Received.{recv_buffers-IsAsking}
use tcp_implementation.Buffer.{buffer, to_buffer}
use tcp_implementation.NetworkInterface.Time.{tick_runs_on}
use tcp_implementation.NetworkInterface.Delivery.{Delivers, resolves-Delivers}

abbrev a_ethernet : EthernetAddress
a_ethernet = record { b0 = 2; b1 = 0; b2 = 0; b3 = 0; b4 = 0; b5 = 1 }

abbrev b_ethernet : EthernetAddress
b_ethernet = record { b0 = 2; b1 = 0; b2 = 0; b3 = 0; b4 = 0; b5 = 2 }

abbrev a_ip : Address
a_ip = record { ipv4_numeric = 167772161; port = 0 }

abbrev b_ip : Address
b_ip = record { ipv4_numeric = 167772162; port = 0 }

abbrev greeting : Ipv4Datagram
greeting = record {
  header = record default_header { len = 22; src = 167772161; dst = 167772162 };
  payload = 104 ∷ 105 ∷ [];
}

greeting-IsDatagram : IsDatagram greeting
greeting-IsDatagram = ground arith

a-IsInterface : IsInterface (new a_ethernet a_ip)
a-IsInterface = ground arith

b-IsInterface : IsInterface (new b_ethernet b_ip)
b-IsInterface = ground arith

resolves-Delivers_example : Delivers (new a_ethernet a_ip) (new b_ethernet b_ip) greeting
resolves-Delivers_example =
    resolves-Delivers a_ethernet b_ethernet a_ip b_ip greeting a-IsInterface b-IsInterface
      greeting-IsDatagram

-- An interface that waits for the address of `b_ip`.
abbrev asking : NetworkInterface
asking = with_waiting (with_request (new a_ethernet a_ip) 167772162) b_ip greeting

asking-IsAsking : IsAsking asking
unfolding find assign
asking-IsAsking = record {
  datagrams = (greeting-IsDatagram, tt);
  unknown = λ ip ttl e. refl;
  waiting = ((5000, refl), tt);
}

abbrev reply : ArpMessage
reply = record default_message {
  opcode = opcode_reply;
  sender_ethernet_address = b_ethernet;
  sender_ip_address = 167772162;
  target_ethernet_address = a_ethernet;
  target_ip_address = 167772161;
}

reply-IsMessage : IsMessage reply
unfolding supported
reply-IsMessage = ground arith

abbrev reply_frame : EthernetFrame
reply_frame = make_frame a_ethernet b_ethernet type_arp (message_wire reply)

recv_buffers-IsAsking_example :
    ((n' : NetworkInterface) × (received : Option Ipv4Datagram) × (recv_buffers asking
          reply_frame.header
          (buffer (message_wire reply) ∷ [])
        ≡ some (n', received))
      × IsAsking n')
    ⊎ ((recv_buffers asking reply_frame.header (buffer (message_wire reply) ∷ []) ≡ none) × (1 < 1))
recv_buffers-IsAsking_example =
    recv_buffers-IsAsking asking reply_frame.header (buffer (message_wire reply) ∷ [])
      asking-IsAsking

-- A reply in two buffers.
recv_several :
    recv_buffers asking reply_frame.header
      (buffer (message_wire reply) ∷ buffer (message_wire reply) ∷ [])
    ≡ none
unfolding recv_buffers to_buffer same_address
recv_several = refl

same_a : same_address a_ethernet a_ethernet ≡ true
unfolding same_address
same_a = refl

listens_a : listens asking a_ethernet ≡ true
unfolding same_address
listens_a = refl

recv_frame_reply_example :
    recv_frame asking reply_frame ≡ some (with_learned asking 167772162 b_ethernet, none)
recv_frame_reply_example =
    recv_frame_reply asking b_ethernet reply reply-IsMessage (greeting-IsDatagram, tt) refl same_a
      listens_a

asking_for : asking.waiting_arp_response_ip_addr ≡ (167772162, 5000) ∷ []
unfolding assign
asking_for = refl

tick_runs_on_example : tick 1000 asking 5000 ≡ runs_on
tick_runs_on_example =
    tick_runs_on 1000 asking 5000 167772162 5000 [] asking_for (omega arith) (omega arith)
