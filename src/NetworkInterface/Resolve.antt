-- ===== src/NetworkInterface/Resolve.antt =====
-- What `send_datagram` does when it knows the Ethernet address of the next hop, when it does not, and
-- when it has asked; and what `recv_frame` does once the answer is there (network_interface.cc).
use tcp_implementation.Base.{
  ℕ, ◌≡◌, refl, ◌∙◌, true, false, List, [], ◌∷◌, ◌++◌, none, some, ◌==◌, if◌then◌else◌, arith, All,
  append-nil, append_assoc, find, assign, erase, find-assign, Bool-cases, inl, inr,
}
use tcp_implementation.Address.{Address}
use tcp_implementation.Ipv4.{Ipv4Datagram}
use tcp_implementation.Ipv4.RoundTrip.{IsDatagram}
use tcp_implementation.Ethernet.{EthernetAddress, EthernetFrame, type_arp}
use tcp_implementation.Arp.{ArpMessage}
use tcp_implementation.Arp.RoundTrip.{IsMessage, message_wire}
use tcp_implementation.NetworkInterface.{
  NetworkInterface, ArpEntry, arp_entry_default_ttl, arp_response_default_ttl, make_frame,
  push_frame, is_valid_arp_request, is_valid_arp_response, arp_reply, ask, send_datagram,
  resend_loop, learn, recv_arp, recv_frame,
}
use tcp_implementation.NetworkInterface.Frames.{
  ipv4_frame, arp_frame, request_frame, broadcast_arp_lem, send_arp_lem, send_ipv4_lem, listens,
  recv_arp_frame,
}

-- A datagram whose next hop is in the ARP table goes out in a frame to the Ethernet address of the
-- table, and nothing else changes.
pub send_datagram_known :
    (n : NetworkInterface) (d : Ipv4Datagram) (next_hop : Address) (e : ArpEntry)
    → IsDatagram d
    → find next_hop.ipv4_numeric n.arp_table ≡ some e
    → send_datagram n d next_hop ≡ some (push_frame n (ipv4_frame e.eth_addr n d))
unfolding send_datagram
send_datagram_known n d next_hop e v known = rw (known, send_datagram) (send_ipv4_lem n d e v)

-- The interface with one more datagram that waits.
abbrev pub with_waiting : NetworkInterface → Address → Ipv4Datagram → NetworkInterface
with_waiting n next_hop d = record n {
  waiting_arp_internet_datagrams = n.waiting_arp_internet_datagrams ++ (next_hop, d) ∷ [];
}

-- The interface after it has asked for `ip`.
abbrev pub with_request : NetworkInterface → ℕ → NetworkInterface
with_request n ip = record (push_frame n (request_frame n ip)) {
  waiting_arp_response_ip_addr = assign ip arp_response_default_ttl n.waiting_arp_response_ip_addr;
}

-- For a next hop that is not in the ARP table and was not asked for, one ARP request is broadcast and
-- remembered for five seconds, and the datagram waits behind those that wait already.
pub send_datagram_unknown :
    (n : NetworkInterface) (d : Ipv4Datagram) (next_hop : Address)
    → find next_hop.ipv4_numeric n.arp_table ≡ none
    → find next_hop.ipv4_numeric n.waiting_arp_response_ip_addr ≡ none
    → send_datagram n d next_hop
      ≡ some (with_waiting (with_request n next_hop.ipv4_numeric) next_hop d)
unfolding send_datagram ask
send_datagram_unknown n d next_hop unknown fresh =
    rw (unknown, send_datagram)
      (rw (fresh, ask) (rw (broadcast_arp_lem n next_hop.ipv4_numeric) refl))

-- For a next hop that was asked for, no second request goes out: the datagram only waits.
pub send_datagram_asked :
    (n : NetworkInterface) (d : Ipv4Datagram) (next_hop : Address) (ttl : ℕ)
    → find next_hop.ipv4_numeric n.arp_table ≡ none
    → find next_hop.ipv4_numeric n.waiting_arp_response_ip_addr ≡ some ttl
    → send_datagram n d next_hop ≡ some (with_waiting n next_hop d)
unfolding send_datagram ask
send_datagram_asked n d next_hop ttl unknown asked =
    rw (unknown, send_datagram) (rw (asked, ask) refl)

-- The frames for the datagrams that wait for `ip`, in their order.
abbrev pub frames_for :
    ℕ → EthernetAddress → NetworkInterface → List (Address × Ipv4Datagram) → List EthernetFrame
frames_for ip dst n [] = []
frames_for ip dst n ((next_hop, d) ∷ rest) =
    if next_hop.ipv4_numeric == ip
    then ipv4_frame dst n d ∷ frames_for ip dst n rest
    else frames_for ip dst n rest

-- The datagrams that wait for other addresses.
abbrev pub not_for : ℕ → List (Address × Ipv4Datagram) → List (Address × Ipv4Datagram)
not_for ip [] = []
not_for ip ((next_hop, d) ∷ rest) =
    if next_hop.ipv4_numeric == ip then not_for ip rest else (next_hop, d) ∷ not_for ip rest

abbrev pub AreDatagrams : List (Address × Ipv4Datagram) → Type 0
AreDatagrams = All (λ w. IsDatagram w.1)

resend_loop_lem :
    (ip : ℕ) (e : ArpEntry) (waiting : List (Address × Ipv4Datagram)) (n : NetworkInterface)
    → AreDatagrams waiting
    → find ip n.arp_table ≡ some e
    → resend_loop ip waiting n
      ≡ some (record n {
        frames_out = n.frames_out ++ frames_for ip e.eth_addr n waiting;
        waiting_arp_internet_datagrams = n.waiting_arp_internet_datagrams ++ not_for ip waiting;
      })
unfolding resend_loop
resend_loop_lem ip e [] n v known =
    rw (append-nil n.frames_out, append-nil n.waiting_arp_internet_datagrams) refl
resend_loop_lem ip e ((next_hop, d) ∷ rest) n v known =
    elim (Bool-cases (next_hop.ipv4_numeric == ip)) [
      | inl same ↦
          let here : find next_hop.ipv4_numeric n.arp_table ≡ some e =
            ground (arith, known, same) in
          let sent = push_frame n (ipv4_frame e.eth_addr n d) in
          rw (same, resend_loop)
            (rw (send_datagram_known n d next_hop e v.0 here) (
              resend_loop_lem ip e rest sent v.1 known
              ∙ rw
                  (append_assoc n.frames_out (ipv4_frame e.eth_addr n d ∷ [])
                    (frames_for ip e.eth_addr n rest))
                  refl))
      | inr other ↦
          rw (other, resend_loop)
            (resend_loop_lem ip e rest (with_waiting n next_hop d) v.1 known
              ∙ rw
                  (append_assoc n.waiting_arp_internet_datagrams ((next_hop, d) ∷ [])
                    (not_for ip rest))
                  refl)
    ]

-- The interface after it has learned the Ethernet address of `ip`.
abbrev pub with_learned : NetworkInterface → ℕ → EthernetAddress → NetworkInterface
with_learned n ip eth = record n {
  frames_out = n.frames_out ++ frames_for ip eth n n.waiting_arp_internet_datagrams;
  arp_table = assign ip (record { eth_addr = eth; ttl = arp_entry_default_ttl }) n.arp_table;
  waiting_arp_response_ip_addr = erase ip n.waiting_arp_response_ip_addr;
  waiting_arp_internet_datagrams = not_for ip n.waiting_arp_internet_datagrams;
}

pub learn_lem :
    (n : NetworkInterface) (ip : ℕ) (eth : EthernetAddress)
    → AreDatagrams n.waiting_arp_internet_datagrams
    → learn n ip eth ≡ some (with_learned n ip eth)
unfolding learn
learn_lem n ip eth v =
    let e : ArpEntry = record { eth_addr = eth; ttl = arp_entry_default_ttl } in
    let learned : NetworkInterface = record n {
      arp_table = assign ip e n.arp_table;
      waiting_arp_internet_datagrams = [];
    } in
    rw
      (resend_loop_lem ip e n.waiting_arp_internet_datagrams learned v
        (find-assign ip e n.arp_table))
      refl

-- The answer to a request, a reply to the interface's own Ethernet address, is put into the ARP table
-- for thirty seconds: every datagram that waits for the sender goes out to its Ethernet address, in
-- their order, the others wait on, and the request is forgotten. The datagrams that wait are well
-- formed, the fields of the reply fit their types, and it is in a frame of one buffer.
pub recv_frame_reply :
    (n : NetworkInterface) (src : EthernetAddress) (m : ArpMessage)
    → IsMessage m
    → AreDatagrams n.waiting_arp_internet_datagrams
    → is_valid_arp_request n m ≡ false
    → is_valid_arp_response n m ≡ true
    → listens n m.target_ethernet_address ≡ true
    → recv_frame n (make_frame m.target_ethernet_address src type_arp (message_wire m))
      ≡ some (with_learned n m.sender_ip_address m.sender_ethernet_address, none)
unfolding recv_arp
recv_frame_reply n src m v w no_request response l =
    recv_arp_frame n m.target_ethernet_address src m l v
    ∙ rw no_request
        (rw response (rw (learn_lem n m.sender_ip_address m.sender_ethernet_address w) refl))

-- A request for the interface's IP address is answered by a reply to its sender, with the interface's
-- addresses; the interface learns the addresses of the sender, and lets go the datagrams that waited
-- for it behind the reply.
pub recv_frame_request :
    (n : NetworkInterface) (dst src : EthernetAddress) (m : ArpMessage)
    → IsMessage m
    → AreDatagrams n.waiting_arp_internet_datagrams
    → is_valid_arp_request n m ≡ true
    → listens n dst ≡ true
    → recv_frame n (make_frame dst src type_arp (message_wire m))
      ≡ some (
        with_learned
            (push_frame n (arp_frame m.sender_ethernet_address n (arp_reply n m)))
            m.sender_ip_address
            m.sender_ethernet_address,
        none,
      )
unfolding recv_arp
recv_frame_request n dst src m v w request l =
    recv_arp_frame n dst src m l v
    ∙ rw request (
        rw (send_arp_lem n m) (
          rw
            (learn_lem (push_frame n (arp_frame m.sender_ethernet_address n (arp_reply n m)))
              m.sender_ip_address m.sender_ethernet_address w)
            refl))
