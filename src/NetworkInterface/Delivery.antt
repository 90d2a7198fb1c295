-- ===== src/NetworkInterface/Delivery.antt =====
-- Two interfaces of network_interface.cc on one wire: from a datagram for an unknown next hop to the
-- datagram at the other side, over an ARP request and its reply.
use tcp_implementation.Base.{◌≡◌, refl, true, [], ◌∷◌, none, some, ◌==◌, arith, find}
use tcp_implementation.Address.{Address}
use tcp_implementation.Ipv4.{Ipv4Datagram, with_cksum}
use tcp_implementation.Ipv4.RoundTrip.{IsDatagram, checksum_of}
use tcp_implementation.Ethernet.{EthernetAddress, EthernetFrame, ethernet_broadcast}
use tcp_implementation.Ethernet.RoundTrip.{same_address_refl}
use tcp_implementation.Arp.{ArpMessage}
use tcp_implementation.Arp.RoundTrip.{IsMessage}
use tcp_implementation.NetworkInterface.{
  NetworkInterface, new, push_frame, is_valid_arp_response, arp_request, arp_reply, send_datagram,
  recv_frame,
}
use tcp_implementation.NetworkInterface.Frames.{
  IsInterface, ipv4_frame, arp_frame, request_frame, listens_own, listens_broadcast,
  arp_request-IsMessage, arp_reply-IsMessage, recv_ipv4_frame,
}
use tcp_implementation.NetworkInterface.Resolve.{
  with_waiting, with_request, with_learned, send_datagram_unknown, recv_frame_request,
  recv_frame_reply,
}

-- The frames of the request of `a` for `b`, and of the reply.
abbrev pub asking : NetworkInterface → NetworkInterface → EthernetFrame
asking a b = request_frame a b.ip_address.ipv4_numeric

abbrev pub answering : NetworkInterface → NetworkInterface → EthernetFrame
answering a b =
    arp_frame a.ethernet_address b (arp_reply b (arp_request a b.ip_address.ipv4_numeric))

-- What comes of `a`'s sending of `d` to `b`: the interfaces on the way, and the frames in their queues.
abbrev pub Delivers : NetworkInterface → NetworkInterface → Ipv4Datagram → Type 0
Delivers a b d =
    (a1 a2 b1 : NetworkInterface) × (send_datagram a d b.ip_address ≡ some a1)
    × (a1.frames_out ≡ asking a b ∷ [])
    × (recv_frame b (asking a b) ≡ some (b1, none))
    × (b1.frames_out ≡ answering a b ∷ [])
    × (recv_frame a1 (answering a b) ≡ some (a2, none))
    × (a2.frames_out ≡ asking a b ∷ ipv4_frame b.ethernet_address a d ∷ [])
    × (recv_frame b1 (ipv4_frame b.ethernet_address a d)
        ≡ some (b1, some (record d { header = with_cksum d.header (checksum_of d.header) })))

-- From two new interfaces: the datagram waits and a request goes out; the other interface answers it;
-- the answer lets the datagram go, and the other interface takes it out of its frame, with its
-- checksum in the header, without an ARP request of its own. The datagram is well formed, and the
-- addresses fit their types.
pub resolves-Delivers :
    (a_ethernet b_ethernet : EthernetAddress) (a_ip b_ip : Address) (d : Ipv4Datagram)
    → IsInterface (new a_ethernet a_ip)
    → IsInterface (new b_ethernet b_ip)
    → IsDatagram d
    → Delivers (new a_ethernet a_ip) (new b_ethernet b_ip) d
unfolding find
resolves-Delivers a_ethernet b_ethernet a_ip b_ip d va vb v =
    let a = new a_ethernet a_ip in
    let b = new b_ethernet b_ip in
    let ip = b_ip.ipv4_numeric in
    let request : ArpMessage = arp_request a ip in
    let reply : ArpMessage = arp_reply b request in
    let asked : IsMessage request = arp_request-IsMessage a ip va vb.ip in
    let answered : IsMessage reply = arp_reply-IsMessage b request vb asked in
    let a1 = with_waiting (with_request a ip) b_ip d in
    let b1 = with_learned (push_frame b (answering a b)) a_ip.ipv4_numeric a_ethernet in
    let self : (ip == ip) ≡ true = ground arith in
    let to_a : is_valid_arp_response a1 reply ≡ true = same_address_refl a_ethernet in
    (
      a1,
      with_learned a1 ip b_ethernet,
      b1,
      send_datagram_unknown a d b_ip refl refl,
      refl,
      recv_frame_request b ethernet_broadcast a_ethernet request asked tt self
          (listens_broadcast b),
      refl,
      recv_frame_reply a1 b_ethernet reply answered (v, tt) refl to_a (listens_own a1),
      rw self refl,
      recv_ipv4_frame b1 b_ethernet a_ethernet d (listens_own b1) v,
    )
