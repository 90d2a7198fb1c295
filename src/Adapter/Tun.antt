-- ===== src/Adapter/Tun.antt =====
-- `TCPOverIPv4OverTunFdAdapter` of libsponge/tcp_helpers/tuntap_adapter.hh: datagrams on a TUN device.
use tcp_implementation.Base.{ℕ, ◌≡◌, refl, List, [], ◌∷◌, Option, none, some, if◌then◌else◌, ◌>>=◌}
use tcp_implementation.Parser.{is_error}
use tcp_implementation.TcpSegment.{TcpSegment}
use tcp_implementation.TcpSegment.RoundTrip.{IsSegment}
use tcp_implementation.Ipv4
use tcp_implementation.Ipv4.RoundTrip.{datagram_wire, checksum_of, parse-serialize_datagram}
use tcp_implementation.TcpOverIp.{FdAdapterBase, unwrap_tcp_in_ip, wrap_tcp_in_ip, with_ports}
use tcp_implementation.TcpOverIp.RoundTrip.{
  IsAdapter, Fits, Faces, ip_datagram, arriving, wrap_tcp_in_ip_lem, ip_datagram-IsDatagram,
  unwrap-wrap_tcp_in_ip,
}
use tcp_implementation.Adapter.{AdapterOps}

-- `read()` of what the device gives.
unfoldable pub tun_read : FdAdapterBase → List ℕ → FdAdapterBase × Option TcpSegment
tun_read a bytes =
    let (ip_dgram, result) = Ipv4.parse bytes in
    if is_error result then (a, none) else unwrap_tcp_in_ip a ip_dgram

-- `write(seg)`: the segment after the call, and what is written.
unfoldable pub tun_write :
    FdAdapterBase → TcpSegment → Option (FdAdapterBase × TcpSegment × List (List ℕ))
tun_write a seg = do
  wrapped ← wrap_tcp_in_ip a seg
  bytes ← Ipv4.serialize wrapped.1
  some (a, wrapped.0, bytes ∷ [])

unfoldable pub tun_ops : AdapterOps FdAdapterBase (List ℕ) (List ℕ)
tun_ops = record { config = λ a. a.cfg; read = tun_read; write = tun_write }

-- What one adapter writes for a segment is one string of bytes, of which the adapter at the other end
-- reads the segment, with the sender's ports and its checksum. Addresses and fields fit their types,
-- and the segment an IPv4 datagram.
pub tun_read-tun_write :
    (a r : FdAdapterBase) (seg : TcpSegment)
    → IsAdapter a
    → IsSegment seg
    → Fits seg
    → Faces a r
    → (tun_write a seg ≡ some (a, with_ports a seg, datagram_wire (ip_datagram a seg) ∷ []))
      × (tun_read r (datagram_wire (ip_datagram a seg)) ≡ (r, some (arriving a seg)))
unfolding tun_read tun_write
tun_read-tun_write a r seg v w room f =
    let d = ip_datagram a seg in
    let over_ip = parse-serialize_datagram d (ip_datagram-IsDatagram a seg v w room) in
    let taken = unwrap-wrap_tcp_in_ip a r seg (checksum_of d.header) v w room f in
    (rw (wrap_tcp_in_ip_lem a seg v w) (rw over_ip.0 refl), rw over_ip.1 taken.2)
