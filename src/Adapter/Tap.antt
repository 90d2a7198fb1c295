-- ===== src/Adapter/Tap.antt =====
-- `TCPOverIPv4OverEthernetAdapter` of libsponge/tcp_helpers/tuntap_adapter.hh and .cc: frames on a TAP
-- device.
use tcp_implementation.Base.{
  ℕ, ◌≡◌, refl, ap, ◌∙◌, false, List, [], ◌∷◌, ◌++◌, append-nil, append_assoc, map, Option, none,
  some, if◌then◌else◌, ◌>>=◌, find, arith,
}
use tcp_implementation.Parser.{is_error}
use tcp_implementation.Address.{Address}
use tcp_implementation.TcpSegment.{TcpSegment}
use tcp_implementation.TcpSegment.RoundTrip.{IsSegment}
use tcp_implementation.Ipv4.{Ipv4Datagram}
use tcp_implementation.Ipv4.RoundTrip.{checksum_of}
use tcp_implementation.Ethernet
use tcp_implementation.Ethernet.{EthernetAddress, EthernetFrame, default_header}
use tcp_implementation.Ethernet.RoundTrip.{IsAddress, IsFrame, parse-serialize_frame}
use tcp_implementation.NetworkInterface.{
  NetworkInterface, ArpEntry, Outcome, returns, throws, runs_on, send_datagram, recv_frame,
}
use tcp_implementation.NetworkInterface
use tcp_implementation.NetworkInterface.Frames.{ipv4_frame, listens_own, recv_ipv4_frame}
use tcp_implementation.NetworkInterface.Resolve.{send_datagram_known}
use tcp_implementation.TcpOverIp.{
  FdAdapterBase, FdAdapterConfig, unwrap_tcp_in_ip, wrap_tcp_in_ip, with_ports,
}
use tcp_implementation.TcpOverIp.RoundTrip.{
  IsAdapter, Fits, Faces, ip_datagram, arriving, unwrap-wrap_tcp_in_ip,
}

-- `class TCPOverIPv4OverEthernetAdapter`; `tap` is what has been written to the device.
pub record TapAdapter : Type 0 where
  pub base : FdAdapterBase
  pub tap : List (List ℕ)
  pub interface : NetworkInterface
  pub next_hop : Address

abbrev default_config : FdAdapterConfig
default_config = record {
  source = record { ipv4_numeric = 0; port = 0 };
  destination = record { ipv4_numeric = 0; port = 0 };
  loss_rate_dn = 0;
  loss_rate_up = 0;
}

-- The constructor, with its dummy frame.
unfoldable pub new_tap : EthernetAddress → Address → Address → TapAdapter
new_tap eth_address ip_address next_hop = record {
  base = record { cfg = default_config; listen = false };
  tap = Ethernet.serialize (record { header = default_header; payload = [] }) ∷ [];
  interface = NetworkInterface.new eth_address ip_address;
  next_hop = next_hop;
}

-- The loop of `send_pending()`: the interface has the frames that are left.
unfoldable pub send_loop : List EthernetFrame → TapAdapter → TapAdapter
send_loop [] t = record t { interface = record t.interface { frames_out = [] } }
send_loop (frame ∷ rest) t =
    send_loop rest (record t { tap = t.tap ++ Ethernet.serialize frame ∷ [] })

abbrev pub send_pending : TapAdapter → TapAdapter
send_pending t = send_loop t.interface.frames_out t

-- The end of `read()`.
abbrev pub unwrap_received : TapAdapter → Option Ipv4Datagram → TapAdapter × Option TcpSegment
unwrap_received t none = (t, none)
unwrap_received t (some ip_dgram) =
    let (base, seg) = unwrap_tcp_in_ip t.base ip_dgram in (record t { base = base }, seg)

-- `read()` of what the device gives; `none` where it throws.
unfoldable pub tap_read : TapAdapter → List ℕ → Option (TapAdapter × Option TcpSegment)
tap_read t bytes =
    let (frame, result) = Ethernet.parse bytes in
    if is_error result then some (t, none) else do
      received ← recv_frame t.interface frame
      some (unwrap_received (send_pending (record t { interface = received.0 })) received.1)

-- `tick(ms_since_last_tick)`.
unfoldable pub tap_tick : ℕ → TapAdapter → ℕ → Outcome TapAdapter
tap_tick fuel t ms = elim (NetworkInterface.tick fuel t.interface ms) [
  | returns n ↦ returns (send_pending (record t { interface = n }))
  | throws ↦ throws
  | runs_on ↦ runs_on
]

-- `write(seg)`: the adapter and the segment after the call; `none` where it throws.
unfoldable pub tap_write : TapAdapter → TcpSegment → Option (TapAdapter × TcpSegment)
tap_write t seg = do
  wrapped ← wrap_tcp_in_ip t.base seg
  n ← send_datagram t.interface wrapped.1 t.next_hop
  some (send_pending (record t { interface = n }), wrapped.0)

-- All frames of the interface go to the device, in their order, and none is left.
pub send_loop_lem :
    (frames : List EthernetFrame) (t : TapAdapter)
    → send_loop frames t ≡ record t {
      tap = t.tap ++ map Ethernet.serialize frames;
      interface = record t.interface { frames_out = [] };
    }
unfolding send_loop
send_loop_lem [] t = rw (append-nil t.tap) refl
send_loop_lem (frame ∷ rest) t =
    send_loop_lem rest (record t { tap = t.tap ++ Ethernet.serialize frame ∷ [] })
    ∙ rw (append_assoc t.tap (Ethernet.serialize frame ∷ []) (map Ethernet.serialize rest)) refl

-- The frame that carries a segment to the Ethernet address `dst`.
abbrev pub carrying : TapAdapter → EthernetAddress → TcpSegment → EthernetFrame
carrying t dst seg = ipv4_frame dst t.interface (ip_datagram t.base seg)

carrying-IsFrame :
    (t : TapAdapter) (dst : EthernetAddress) (seg : TcpSegment)
    → IsAddress dst
    → IsAddress t.interface.ethernet_address
    → IsFrame (carrying t dst seg)
carrying-IsFrame t dst seg to from = record { dst = to; src = from; type_fits = omega arith }

-- From the segment to the wire and back: with the next hop in the ARP table and nothing else to send,
-- what `write` puts on the wire is one frame to the next hop, behind what is there; the adapter at
-- the other end, whose interface has that Ethernet address, reads of it the segment, with the
-- sender's ports and its checksum, and neither keeps a frame back. Addresses and fields fit their
-- types, and the segment an IPv4 datagram.
pub tap_read-tap_write :
    (t r : TapAdapter) (seg : TcpSegment) (e : ArpEntry)
    → IsAdapter t.base
    → IsSegment seg
    → Fits seg
    → Faces t.base r.base
    → find t.next_hop.ipv4_numeric t.interface.arp_table ≡ some e
    → t.interface.frames_out ≡ []
    → r.interface.frames_out ≡ []
    → e.eth_addr ≡ r.interface.ethernet_address
    → IsAddress e.eth_addr
    → IsAddress t.interface.ethernet_address
    → let bytes = Ethernet.serialize (carrying t e.eth_addr seg) in
      (tap_write t seg ≡ some (record t { tap = t.tap ++ bytes ∷ [] }, with_ports t.base seg))
      × (tap_read r bytes ≡ some (r, some (arriving t.base seg)))
unfolding tap_read tap_write
tap_read-tap_write t r seg e v w room f known idle idle' same to from =
    let d = ip_datagram t.base seg in
    let frame = carrying t e.eth_addr seg in
    let taken = unwrap-wrap_tcp_in_ip t.base r.base seg (checksum_of d.header) v w room f in
    let framed = parse-serialize_frame frame (carrying-IsFrame t e.eth_addr seg to from) in
    let listens =
      ap (λ a. NetworkInterface.Frames.listens r.interface a) same ∙ listens_own r.interface in
    let heard =
      recv_ipv4_frame r.interface e.eth_addr t.interface.ethernet_address d listens taken.1 in
    (
      rw taken.0 (
          rw (send_datagram_known t.interface d t.next_hop e taken.1 known) (
            rw
              (send_loop_lem (t.interface.frames_out ++ frame ∷ []) (record t {
                interface = record t.interface {
                  frames_out = t.interface.frames_out ++ frame ∷ [];
                };
              }))
              (rw idle refl))),
      rw framed (
          rw heard (
            rw (send_loop_lem r.interface.frames_out r)
              (rw taken.2 (rw idle' (rw (append-nil r.tap) refl))))),
    )
