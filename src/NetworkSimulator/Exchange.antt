-- ===== src/NetworkSimulator/Exchange.antt =====
-- Two hosts of network_simulator.cc on one wire.
use tcp_implementation.Base.{
  ℕ, ◌+◌, ◌<◌, ◌≡◌, refl, ap, arith, true, List, [], ◌∷◌, some, ◌==◌, length, find,
}
use tcp_implementation.Address.{Address}
use tcp_implementation.Ipv4.{Ipv4Datagram, with_cksum}
use tcp_implementation.Ipv4.RoundTrip.{
  IsDatagram, checksum_of, datagram_wire, parse-serialize_datagram, rechecked-IsDatagram,
}
use tcp_implementation.Ethernet.{EthernetAddress, ethernet_broadcast}
use tcp_implementation.Ethernet.RoundTrip.{same_address_refl}
use tcp_implementation.Arp.{ArpMessage}
use tcp_implementation.Arp.RoundTrip.{IsMessage}
use tcp_implementation.NetworkInterface
use tcp_implementation.NetworkInterface.{
  NetworkInterface, push_frame, is_valid_arp_response, is_valid_arp_request, arp_request, arp_reply,
  send_datagram,
}
use tcp_implementation.NetworkInterface.Frames.{
  IsInterface, ipv4_frame, listens_own, listens_broadcast, arp_request-IsMessage,
  arp_reply-IsMessage, recv_ipv4_frame,
}
use tcp_implementation.NetworkInterface.Resolve.{
  with_waiting, with_request, with_learned, send_datagram_unknown, recv_frame_request,
  recv_frame_reply,
}
use tcp_implementation.NetworkInterface.Delivery.{answering}
use tcp_implementation.Router.{AsyncNetworkInterface, async, recv_frame}
use tcp_implementation.NetworkSimulator.{
  Host, new, equal_bytes, same_datagram, expecting, remove_expectation, datagram_to, send_to,
  expect, check_loop, check, deliver, clear, exchange_frames,
}

equal_bytes_refl : (xs : List ℕ) → equal_bytes xs xs ≡ true
unfolding equal_bytes
equal_bytes_refl [] = refl
equal_bytes_refl (x ∷ xs) = ground (arith, equal_bytes_refl xs)

-- The datagram as it arrives.
abbrev pub arrived : Ipv4Datagram → Ipv4Datagram
arrived d = record d { header = with_cksum d.header (checksum_of d.header) }

same_datagram-arrived : (d : Ipv4Datagram) → IsDatagram d → same_datagram d (arrived d) ≡ some true
unfolding same_datagram
same_datagram-arrived d v =
    let here = (parse-serialize_datagram d v).0 in
    let there = (parse-serialize_datagram (arrived d) (rechecked-IsDatagram d v)).0 in
    rw here (rw there (ap some (equal_bytes_refl (datagram_wire d))))

datagram_to-IsDatagram :
    (h : Host) (destination : Address) (ttl : ℕ) (payload : List ℕ)
    → h.my_address.ipv4_numeric < 4294967296
    → destination.ipv4_numeric < 4294967296
    → ttl < 256
    → 20 + length payload < 65536
    → IsDatagram (datagram_to h destination ttl payload)
unfolding datagram_to
datagram_to-IsDatagram h destination ttl payload s d t room = ground arith

-- A host whose interface holds a datagram that it expects, and no other, passes its check.
check_expected :
    (h : Host) (d : Ipv4Datagram)
    → IsDatagram d
    → h.expecting_to_receive ≡ []
    → h.interface.datagrams_out ≡ arrived d ∷ []
    → check (expect h d)
      ≡ some (record h {
        interface = record (h.interface) { datagrams_out = [] };
        expecting_to_receive = [];
      })
unfolding check check_loop expect expecting remove_expectation
check_expected h d v e q = let same = same_datagram-arrived d v in rw e (rw q (rw same refl))

-- What comes of the datagram `d` that the host `a` sends to the host `b`: three exchanges of frames.
abbrev pub Arrives : Host → Host → Ipv4Datagram → Host → Type 0
Arrives a b d a1 =
    (x1 y1 x2 y2 x3 y3 : AsyncNetworkInterface) × (exchange_frames a1.interface b.interface
      ≡ some (x1, y1))
    × (exchange_frames x1 y1 ≡ some (x2, y2))
    × (exchange_frames x2 y2 ≡ some (x3, y3))
    × (x3.interface.frames_out ≡ [])
    × (y3.interface.frames_out ≡ [])
    × (x3.datagrams_out ≡ [])
    × (check (expect (record b { interface = y3 }) d)
        ≡ some (record b { interface = record y3 { datagrams_out = [] } }))

-- Two new hosts, each the other's next hop, on one wire: a datagram that one sends to the other is there
-- after three exchanges of frames, for the ARP request, the reply and the datagram. No frame is left
-- over, and the receiver's check finds the datagram that it was told to expect and no other. The
-- addresses and the time to live fit their types, and the datagram its length field.
pub send_to-Arrives :
    (a_ethernet b_ethernet : EthernetAddress) (a_ip b_ip : Address) (ttl : ℕ) (payload : List ℕ)
    → IsInterface (NetworkInterface.new a_ethernet a_ip)
    → IsInterface (NetworkInterface.new b_ethernet b_ip)
    → ttl < 256
    → 20 + length payload < 65536
    → let a = new a_ethernet a_ip b_ip in
      let b = new b_ethernet b_ip a_ip in
      let d = datagram_to a b_ip ttl payload in
      (a1 : Host) × (send_to a b_ip ttl payload ≡ some (a1, d)) × Arrives a b d a1
unfolding new send_to exchange_frames deliver clear recv_frame find
send_to-Arrives a_ethernet b_ethernet a_ip b_ip ttl payload va vb small room =
    let a = NetworkInterface.new a_ethernet a_ip in
    let b = NetworkInterface.new b_ethernet b_ip in
    let host = new a_ethernet a_ip b_ip in
    let d = datagram_to host b_ip ttl payload in
    let v = datagram_to-IsDatagram host b_ip ttl payload va.ip vb.ip small room in
    let ip = b_ip.ipv4_numeric in
    let request : ArpMessage = arp_request a ip in
    let reply : ArpMessage = arp_reply b request in
    let asked : IsMessage request = arp_request-IsMessage a ip va vb.ip in
    let answered : IsMessage reply = arp_reply-IsMessage b request vb asked in
    let self : (ip == ip) ≡ true = ground arith in
    let to_a : is_valid_arp_response a reply ≡ true = same_address_refl a_ethernet in
    let waiting : NetworkInterface = with_waiting (with_request a ip) b_ip d in
    let asked_out : NetworkInterface = record waiting { frames_out = [] } in
    let answering_b : NetworkInterface =
      with_learned (push_frame b (answering a b)) a_ip.ipv4_numeric a_ethernet in
    let answered_b : NetworkInterface = record answering_b { frames_out = [] } in
    let frame = ipv4_frame b_ethernet a d in
    let resolved : NetworkInterface = record (with_learned asked_out ip b_ethernet) {
      frames_out = frame ∷ [];
      waiting_arp_internet_datagrams = [];
    } in
    let first =
      recv_frame_request b ethernet_broadcast a_ethernet request asked tt self
        (listens_broadcast b) in
    let second =
      recv_frame_reply asked_out b_ethernet reply answered (v, tt) refl to_a
        (listens_own asked_out) in
    let third = recv_ipv4_frame answered_b b_ethernet a_ethernet d (listens_own answered_b) v in
    let received : AsyncNetworkInterface = record {
      interface = answered_b;
      datagrams_out = arrived d ∷ [];
    } in
    (
      record host { interface = async waiting },
      rw (send_datagram_unknown a d b_ip refl refl) refl,
      (
        async asked_out,
        async answering_b,
        async resolved,
        async answered_b,
        async (record resolved { frames_out = [] }),
        received,
        rw first refl,
        rw second (rw self refl),
        rw third refl,
        refl,
        refl,
        refl,
        check_expected (record (new b_ethernet b_ip a_ip) { interface = received }) d v refl refl,
      ),
    )
