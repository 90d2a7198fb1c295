-- ===== src/NetworkInterface/Frames.antt =====
-- The frames that network_interface.cc makes, and how its `recv_frame` takes them.
use tcp_implementation.Base.{
  ℕ, ◌<◌, ◌≡◌, refl, Bool, true, false, not, none, some, ◌&&◌, ◌||◌, ◌>>=◌, arith,
}
use tcp_implementation.Ipv4.{Ipv4Datagram, with_cksum}
use tcp_implementation.Ipv4.RoundTrip.{
  IsDatagram, checksum_of, datagram_wire, parse-serialize_datagram,
}
use tcp_implementation.Ethernet.{
  EthernetAddress, EthernetFrame, ethernet_broadcast, same_address, type_ipv4, type_arp,
}
use tcp_implementation.Ethernet.RoundTrip.{IsAddress, same_address_refl}
use tcp_implementation.Arp.{ArpMessage, default_message, supported}
use tcp_implementation.Arp.RoundTrip.{
  IsMessage, message_wire, serialize_message, parse-serialize_message,
}
use tcp_implementation.NetworkInterface.{
  NetworkInterface, ArpEntry, make_frame, push_frame, broadcast_arp, send_arp, send_ipv4,
  arp_request, arp_reply, recv_arp, recv_frame,
}

-- The addresses of the interface fit their types.
pub record IsInterface (n : NetworkInterface) : Type 0 where
  pub ethernet : IsAddress n.ethernet_address
  pub ip : n.ip_address.ipv4_numeric < 4294967296

-- A frame with an ARP message.
abbrev pub arp_frame : EthernetAddress → NetworkInterface → ArpMessage → EthernetFrame
arp_frame dst n m = make_frame dst n.ethernet_address type_arp (message_wire m)

-- A frame with a datagram.
abbrev pub ipv4_frame : EthernetAddress → NetworkInterface → Ipv4Datagram → EthernetFrame
ipv4_frame dst n d = make_frame dst n.ethernet_address type_ipv4 (datagram_wire d)

-- The request that goes out for `ip`.
abbrev pub request_frame : NetworkInterface → ℕ → EthernetFrame
request_frame n ip = arp_frame ethernet_broadcast n (arp_request n ip)

arp_request-supported : (n : NetworkInterface) (ip : ℕ) → supported (arp_request n ip) ≡ true
unfolding supported
arp_request-supported n ip = refl

arp_reply-supported : (n : NetworkInterface) (m : ArpMessage) → supported (arp_reply n m) ≡ true
unfolding supported
arp_reply-supported n m = refl

pub broadcast_arp_lem :
    (n : NetworkInterface) (ip : ℕ)
    → broadcast_arp n (arp_request n ip) ≡ some (push_frame n (request_frame n ip))
broadcast_arp_lem n ip = rw (serialize_message (arp_request n ip) (arp_request-supported n ip)) refl

pub send_arp_lem :
    (n : NetworkInterface) (m : ArpMessage)
    → send_arp n m.sender_ethernet_address (arp_reply n m)
      ≡ some (push_frame n (arp_frame m.sender_ethernet_address n (arp_reply n m)))
send_arp_lem n m = rw (serialize_message (arp_reply n m) (arp_reply-supported n m)) refl

pub send_ipv4_lem :
    (n : NetworkInterface) (d : Ipv4Datagram) (e : ArpEntry)
    → IsDatagram d
    → send_ipv4 n d e ≡ some (push_frame n (ipv4_frame e.eth_addr n d))
send_ipv4_lem n d e v = rw ((parse-serialize_datagram d v).0) refl

pub arp_request-IsMessage :
    (n : NetworkInterface) (ip : ℕ) → IsInterface n → ip < 4294967296 → IsMessage (arp_request n ip)
arp_request-IsMessage n ip v fits = record {
  is_supported = arp_request-supported n ip;
  sender = v.ethernet;
  sender_ip = v.ip;
  target = ground arith;
  target_ip = fits;
}

pub arp_reply-IsMessage :
    (n : NetworkInterface) (m : ArpMessage)
    → IsInterface n
    → IsMessage m
    → IsMessage (arp_reply n m)
arp_reply-IsMessage n m v w = record {
  is_supported = arp_reply-supported n m;
  sender = v.ethernet;
  sender_ip = v.ip;
  target = w.sender;
  target_ip = w.sender_ip;
}

-- Whether the interface looks at frames to `dst`.
abbrev pub listens : NetworkInterface → EthernetAddress → Bool
listens n dst = same_address dst n.ethernet_address || same_address dst ethernet_broadcast

pub listens_own : (n : NetworkInterface) → listens n n.ethernet_address ≡ true
listens_own n = rw (same_address_refl n.ethernet_address) refl

pub listens_broadcast : (n : NetworkInterface) → listens n ethernet_broadcast ≡ true
listens_broadcast n = let e = same_address_refl ethernet_broadcast in ground (arith, e)

listens_not : (a b : Bool) → (a || b) ≡ true → (not a && not b) ≡ false
listens_not a b h = ground arith

pub recv_arp_frame :
    (n : NetworkInterface) (dst src : EthernetAddress) (m : ArpMessage)
    → listens n dst ≡ true
    → IsMessage m
    → recv_frame n (make_frame dst src type_arp (message_wire m))
      ≡ (recv_arp n m >>= (λ n'. some (n', none)))
unfolding recv_frame
recv_arp_frame n dst src m l v =
    rw (listens_not (same_address dst n.ethernet_address) (same_address dst ethernet_broadcast) l)
      (rw ((parse-serialize_message default_message m v).1) refl)

pub recv_ipv4_frame :
    (n : NetworkInterface) (dst src : EthernetAddress) (d : Ipv4Datagram)
    → listens n dst ≡ true
    → IsDatagram d
    → recv_frame n (make_frame dst src type_ipv4 (datagram_wire d))
      ≡ some (n, some (record d { header = with_cksum d.header (checksum_of d.header) }))
unfolding recv_frame
recv_ipv4_frame n dst src d l v =
    rw (listens_not (same_address dst n.ethernet_address) (same_address dst ethernet_broadcast) l)
      (rw ((parse-serialize_datagram d v).1) refl)
