-- ===== src/NetworkInterface/Waiting.antt =====
-- The invariant of network_interface.cc: a datagram waits only for an address that was asked for, and
-- an address that was asked for is not in the ARP table.
use tcp_implementation.Base.{
  ℕ, ◌≡◌, ◌≢◌, refl, sym, ap, ◌∙◌, not, List, [], ◌∷◌, Option, none, some, ◌==◌, ◌&&◌,
  if◌then◌else◌, arith, All, All-append, find, assign, erase, find-assign, find-assign_other,
  find-erase, find-erase_other, Bool-cases, Option-cases, inl, inr, ==_iff,
}
use tcp_implementation.Parser.{is_error}
use tcp_implementation.Address.{Address}
use tcp_implementation.Ipv4
use tcp_implementation.Ipv4.{Ipv4Datagram}
use tcp_implementation.Ipv4.RoundTrip.{IsDatagram}
use tcp_implementation.Ethernet.{
  EthernetAddress, EthernetFrame, same_address, type_arp, type_ipv4, ethernet_broadcast,
}
use tcp_implementation.Arp
use tcp_implementation.Arp.{ArpMessage, default_message}
use tcp_implementation.NetworkInterface.{
  NetworkInterface, ArpEntry, arp_entry_default_ttl, arp_response_default_ttl, push_frame,
  is_valid_arp_request, is_valid_arp_response, arp_reply, send_datagram, recv_arp, recv_frame,
}
use tcp_implementation.NetworkInterface.Frames.{ipv4_frame, arp_frame, send_arp_lem}
use tcp_implementation.NetworkInterface.Resolve.{
  AreDatagrams, with_waiting, with_request, with_learned, not_for, learn_lem, send_datagram_known,
  send_datagram_unknown, send_datagram_asked,
}

-- The address was asked for.
abbrev pub IsAsked : List (ℕ × ℕ) → ℕ → Type 0
IsAsked asked ip = (ttl : ℕ) × (find ip asked ≡ some ttl)

abbrev pub AllAsked : List (ℕ × ℕ) → List (Address × Ipv4Datagram) → Type 0
AllAsked asked = All (λ w. IsAsked asked w.0.ipv4_numeric)

-- What the parts of an interface have to do with each other.
pub record IsAsking (n : NetworkInterface) : Type 0 where
  pub datagrams : AreDatagrams n.waiting_arp_internet_datagrams
  pub unknown :
      (ip ttl : ℕ) → find ip n.waiting_arp_response_ip_addr ≡ some ttl → find ip n.arp_table ≡ none
  pub waiting : AllAsked n.waiting_arp_response_ip_addr n.waiting_arp_internet_datagrams

-- A further request keeps those that were there.
assign-IsAsked :
    (ip ttl other : ℕ) (asked : List (ℕ × ℕ))
    → IsAsked asked other
    → IsAsked (assign ip ttl asked) other
assign-IsAsked ip ttl other asked h = elim (Bool-cases (other == ip)) [
  | inl same ↦ (ttl, rw ((==_iff other ip).0 same) (find-assign ip ttl asked))
  | inr differs ↦ (h.0, find-assign_other other ip ttl asked (ground (arith, differs)) ∙ h.1)
]

assign-AllAsked :
    (ip ttl : ℕ) (asked : List (ℕ × ℕ)) (waiting : List (Address × Ipv4Datagram))
    → AllAsked asked waiting
    → AllAsked (assign ip ttl asked) waiting
assign-AllAsked ip ttl asked [] h = tt
assign-AllAsked ip ttl asked (w ∷ rest) h =
    (assign-IsAsked ip ttl w.0.ipv4_numeric asked h.0, assign-AllAsked ip ttl asked rest h.1)

with_waiting-IsAsking :
    (n : NetworkInterface) (d : Ipv4Datagram) (next_hop : Address)
    → IsAsking n
    → IsDatagram d
    → IsAsked n.waiting_arp_response_ip_addr next_hop.ipv4_numeric
    → IsAsking (with_waiting n next_hop d)
with_waiting-IsAsking n d next_hop v w asked = record {
  datagrams =
      All-append (λ w. IsDatagram w.1) n.waiting_arp_internet_datagrams ((next_hop, d) ∷ [])
        v.datagrams (w, tt);
  unknown = v.unknown;
  waiting =
      All-append (λ w. IsAsked n.waiting_arp_response_ip_addr w.0.ipv4_numeric)
        n.waiting_arp_internet_datagrams ((next_hop, d) ∷ []) v.waiting (asked, tt);
}

with_request-IsAsking :
    (n : NetworkInterface) (ip : ℕ)
    → IsAsking n
    → find ip n.arp_table ≡ none
    → IsAsking (with_request n ip)
with_request-IsAsking n ip v fresh = record {
  datagrams = v.datagrams;
  unknown = λ other ttl e. elim (Bool-cases (other == ip)) [
    | inl same ↦ rw ((==_iff other ip).0 same) fresh
    | inr differs ↦ v.unknown other ttl (
        sym (
          find-assign_other other ip arp_response_default_ttl n.waiting_arp_response_ip_addr
            (ground (arith, differs)))
        ∙ e)
  ];
  waiting =
      assign-AllAsked ip arp_response_default_ttl n.waiting_arp_response_ip_addr
        n.waiting_arp_internet_datagrams v.waiting;
}

-- Sending a well-formed datagram always succeeds, and keeps the invariant.
pub send_datagram-IsAsking :
    (n : NetworkInterface) (d : Ipv4Datagram) (next_hop : Address)
    → IsAsking n
    → IsDatagram d
    → (n' : NetworkInterface) × (send_datagram n d next_hop ≡ some n') × IsAsking n'
send_datagram-IsAsking n d next_hop v w =
    let ip = next_hop.ipv4_numeric in
    elim (Option-cases (find ip n.arp_table)) [
      | inr (e, known) ↦ (
        push_frame n (ipv4_frame e.eth_addr n d),
        send_datagram_known n d next_hop e w known,
        record { datagrams = v.datagrams; unknown = v.unknown; waiting = v.waiting },
      )
      | inl fresh ↦ elim (Option-cases (find ip n.waiting_arp_response_ip_addr)) [
        | inr (ttl, asked) ↦ (
          with_waiting n next_hop d,
          send_datagram_asked n d next_hop ttl fresh asked,
          with_waiting-IsAsking n d next_hop v w (ttl, asked),
        )
        | inl unasked ↦ (
          with_waiting (with_request n ip) next_hop d,
          send_datagram_unknown n d next_hop fresh unasked,
          with_waiting-IsAsking (with_request n ip) d next_hop (with_request-IsAsking n ip v fresh)
              w
              (
                arp_response_default_ttl,
                find-assign ip arp_response_default_ttl n.waiting_arp_response_ip_addr,
              ),
        )
      ]
    ]

not_for-AreDatagrams :
    (ip : ℕ) (waiting : List (Address × Ipv4Datagram))
    → AreDatagrams waiting
    → AreDatagrams (not_for ip waiting)
not_for-AreDatagrams ip [] v = tt
not_for-AreDatagrams ip ((next_hop, d) ∷ rest) v = elim (Bool-cases (next_hop.ipv4_numeric == ip)) [
  | inl same ↦ rw same (not_for-AreDatagrams ip rest v.1)
  | inr other ↦ rw other (v.0, not_for-AreDatagrams ip rest v.1)
]

not_for-AllAsked :
    (ip : ℕ) (asked : List (ℕ × ℕ)) (waiting : List (Address × Ipv4Datagram))
    → AllAsked asked waiting
    → AllAsked (erase ip asked) (not_for ip waiting)
not_for-AllAsked ip asked [] v = tt
not_for-AllAsked ip asked ((next_hop, d) ∷ rest) v =
    elim (Bool-cases (next_hop.ipv4_numeric == ip)) [
      | inl same ↦ rw same (not_for-AllAsked ip asked rest v.1)
      | inr other ↦ rw other (
        (v.0.0, find-erase_other next_hop.ipv4_numeric ip asked (ground (arith, other)) ∙ v.0.1),
        not_for-AllAsked ip asked rest v.1,
      )
    ]

with_learned-IsAsking :
    (n : NetworkInterface) (ip : ℕ) (eth : EthernetAddress)
    → IsAsking n
    → IsAsking (with_learned n ip eth)
with_learned-IsAsking n ip eth v =
    let e : ArpEntry = record { eth_addr = eth; ttl = arp_entry_default_ttl } in
    let asked = n.waiting_arp_response_ip_addr in
    record {
      datagrams = not_for-AreDatagrams ip n.waiting_arp_internet_datagrams v.datagrams;
      unknown = λ other ttl h. elim (Bool-cases (other == ip)) [
        | inl same ↦
            let same' : other ≡ ip = (==_iff other ip).0 same in
            absurd (ground (arith, h, ap (λ t. find t (erase ip asked)) same', find-erase ip asked))
        | inr differs ↦
            let differs' : other ≢ ip = ground (arith, differs) in
            find-assign_other other ip e n.arp_table differs'
            ∙ v.unknown other ttl (sym (find-erase_other other ip asked differs') ∙ h)
      ];
      waiting = not_for-AllAsked ip asked n.waiting_arp_internet_datagrams v.waiting;
    }

recv_arp-IsAsking :
    (n : NetworkInterface) (m : ArpMessage)
    → IsAsking n
    → (n' : NetworkInterface) × (recv_arp n m ≡ some n') × IsAsking n'
unfolding recv_arp
recv_arp-IsAsking n m v =
    let replied = push_frame n (arp_frame m.sender_ethernet_address n (arp_reply n m)) in
    let replied-IsAsking : IsAsking replied = record {
      datagrams = v.datagrams;
      unknown = v.unknown;
      waiting = v.waiting;
    } in
    elim (Bool-cases (is_valid_arp_request n m)) [
      | inl request ↦ (
        with_learned replied m.sender_ip_address m.sender_ethernet_address,
        rw request (
            rw (send_arp_lem n m)
              (learn_lem replied m.sender_ip_address m.sender_ethernet_address v.datagrams)),
        with_learned-IsAsking replied m.sender_ip_address m.sender_ethernet_address
            replied-IsAsking,
      )
      | inr no_request ↦ elim (Bool-cases (is_valid_arp_response n m)) [
        | inl response ↦ (
          with_learned n m.sender_ip_address m.sender_ethernet_address,
          rw no_request
              (rw response (learn_lem n m.sender_ip_address m.sender_ethernet_address v.datagrams)),
          with_learned-IsAsking n m.sender_ip_address m.sender_ethernet_address v,
        )
        | inr neither ↦ (n, rw no_request (rw neither refl), v)
      ]
    ]

-- Whatever frame arrives with a payload of one buffer, `recv_frame` does not throw, and it keeps the
-- invariant.
pub recv_frame-IsAsking :
    (n : NetworkInterface) (frame : EthernetFrame)
    → IsAsking n
    → (n' : NetworkInterface) × (received : Option Ipv4Datagram) × (recv_frame n frame
        ≡ some (n', received))
      × IsAsking n'
unfolding recv_frame
recv_frame-IsAsking n frame v =
    let dst = frame.header.dst in
    let datagram = Ipv4.parse frame.payload in
    let message = Arp.parse default_message frame.payload in
    let after = recv_arp-IsAsking n message.0 v in
    elim (Bool-cases
      (not (same_address dst n.ethernet_address) && not (same_address dst ethernet_broadcast))) [
        | inl ignored ↦ (n, none, rw ignored refl, v)
        | inr heard ↦ elim (Bool-cases (frame.header.ether_type == type_ipv4)) [
          | inl ipv4 ↦ (
            n,
            (if is_error datagram.1 then none else some datagram.0),
            rw heard (rw ipv4 refl),
            v,
          )
          | inr not_ipv4 ↦ elim (Bool-cases (frame.header.ether_type == type_arp)) [
            | inr other ↦ (n, none, rw heard (rw not_ipv4 (rw other refl)), v)
            | inl arp ↦ elim (Bool-cases (is_error message.1)) [
              | inl bad ↦ (n, none, rw heard (rw not_ipv4 (rw arp (rw bad refl))), v)
              | inr good ↦ (
                after.0,
                none,
                rw heard (rw not_ipv4 (rw arp (rw good (rw (after.1) refl)))),
                after.2,
              )
            ]
          ]
        ]
      ]
