-- ===== src/NetworkInterface/Received.antt =====
-- `recv_frame` of network_interface.cc, with the conversion of the payload.
use tcp_implementation.Base.{
  ◌<◌, ◌≡◌, ◌⊎◌, inl, inr, refl, List, [], ◌∷◌, Option, none, some, not, ◌==◌, ◌&&◌, ◌||◌, length,
  arith, Bool-cases,
}
use tcp_implementation.Buffer.{Buffer, str, to_buffer, empty_buffer}
use tcp_implementation.Ipv4.{Ipv4Datagram}
use tcp_implementation.Ethernet.{
  EthernetHeader, same_address, ethernet_broadcast, type_arp, type_ipv4,
}
use tcp_implementation.NetworkInterface.{NetworkInterface, recv_buffers}
use tcp_implementation.NetworkInterface.Waiting.{IsAsking, recv_frame-IsAsking}

-- The conversion gives one buffer, or there are several.
to_buffer-cases :
    (payload : List Buffer)
    → ((whole : Buffer) × (to_buffer payload ≡ some whole))
      ⊎ ((to_buffer payload ≡ none) × (1 < length payload))
unfolding to_buffer
to_buffer-cases [] = inl (empty_buffer, refl)
to_buffer-cases (b ∷ []) = inl (b, refl)
to_buffer-cases (b ∷ b' ∷ rest) = inr (refl, omega arith)

-- Whatever frame arrives at an interface in which the invariant holds, `recv_frame` throws only if the
-- payload has several buffers. Otherwise it returns and keeps the invariant: the datagrams that wait are well formed, each waits for an address
-- that was asked for, and no address that was asked for is in the ARP table.
pub recv_buffers-IsAsking :
    (n : NetworkInterface) (header : EthernetHeader) (payload : List Buffer)
    → IsAsking n
    → ((n' : NetworkInterface) × (received : Option Ipv4Datagram) × (recv_buffers n header payload
          ≡ some (n', received))
        × IsAsking n')
      ⊎ ((recv_buffers n header payload ≡ none) × (1 < length payload))
unfolding recv_buffers
recv_buffers-IsAsking n header payload v =
    elim (Bool-cases (
      not (same_address header.dst n.ethernet_address)
      && not (same_address header.dst ethernet_broadcast))) [
        | inl ignored ↦ inl (n, none, rw ignored refl, v)
        | inr heard ↦
            elim (Bool-cases (header.ether_type == type_ipv4 || header.ether_type == type_arp)) [
              | inr other ↦ inl (n, none, rw heard (rw other refl), v)
              | inl known ↦ elim (to_buffer-cases payload) [
                | inr (several, many) ↦ inr (rw heard (rw known (rw several refl)), many)
                | inl (whole, is_whole) ↦
                    let (n', received, e, v') =
                      recv_frame-IsAsking n (record { header = header; payload = str whole }) v in
                    inl (n', received, rw heard (rw known (rw is_whole e)), v')
              ]
            ]
      ]
