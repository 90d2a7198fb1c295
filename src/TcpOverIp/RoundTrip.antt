-- ===== src/TcpOverIp/RoundTrip.antt =====
-- A segment that tcp_over_ip.cc puts into a datagram on one side is taken out of it on the other.
use tcp_implementation.Base.{ℕ, ◌+◌, ◌*◌, ◌<◌, ◌≡◌, refl, ap, true, false, some, length, arith}
use tcp_implementation.Parser.{no_error}
use tcp_implementation.Address.{Address}
use tcp_implementation.TcpSegment.{TcpSegment, default_segment}
use tcp_implementation.TcpSegment.RoundTrip.{
  IsSegment, segment_wire, segment_checksum_of, length-segment_wire, parse-serialize_segment,
}
use tcp_implementation.TcpSegment.Wire
use tcp_implementation.Ipv4.{Ipv4Header, Ipv4Datagram, pseudo_cksum, with_cksum}
use tcp_implementation.Ipv4.RoundTrip.{IsDatagram}
use tcp_implementation.TcpOverIp.{
  FdAdapterBase, unwrap_tcp_in_ip, wrap_tcp_in_ip, with_ports, ip_header,
}

-- An address that fits its types.
pub record IsAddress (a : Address) : Type 0 where
  pub ip_fits : a.ipv4_numeric < 4294967296
  pub port_fits : a.port < 65536

-- The addresses of an adapter fit their types.
pub record IsAdapter (a : FdAdapterBase) : Type 0 where
  pub source : IsAddress a.cfg.source
  pub destination : IsAddress a.cfg.destination

-- The segment has room in a datagram.
abbrev pub Fits : TcpSegment → Type 0
Fits seg = 20 + 4 * seg.header.doff + length seg.payload < 65536

pub with_ports-IsSegment :
    (a : FdAdapterBase) (seg : TcpSegment)
    → IsAdapter a
    → IsSegment seg
    → IsSegment (with_ports a seg)
with_ports-IsSegment a seg v w = ground (arith, v, w)

pseudo_cksum_lt :
    (h : Ipv4Header)
    → h.src < 4294967296
    → h.dst < 4294967296
    → h.proto < 256
    → pseudo_cksum h < 1073741824
unfolding pseudo_cksum
pseudo_cksum_lt h s d p = omega arith

-- The checksum in the segment.
abbrev pub wrapped_checksum : FdAdapterBase → TcpSegment → ℕ
wrapped_checksum a seg =
    segment_checksum_of (with_ports a seg) (pseudo_cksum (ip_header a (with_ports a seg)))

-- The segment as it arrives.
abbrev pub arriving : FdAdapterBase → TcpSegment → TcpSegment
arriving a seg = record seg {
  header = Wire.with_cksum (with_ports a seg).header (wrapped_checksum a seg);
}

abbrev pub ip_datagram : FdAdapterBase → TcpSegment → Ipv4Datagram
ip_datagram a seg = record {
  header = ip_header a (with_ports a seg);
  payload = segment_wire (with_ports a seg) (wrapped_checksum a seg);
}

-- What the segment layer makes of it.
carried :
    (a : FdAdapterBase) (seg : TcpSegment)
    → IsAdapter a
    → IsSegment seg
    → let pseudo = pseudo_cksum (ip_header a (with_ports a seg)) in
      (Wire.serialize (with_ports a seg) pseudo ≡ some (ip_datagram a seg).payload)
      × (Wire.parse default_segment (ip_datagram a seg).payload pseudo ≡ (arriving a seg, no_error))
unfolding ip_header
carried a seg v w =
    let h = ip_header a (with_ports a seg) in
    parse-serialize_segment default_segment (with_ports a seg) (pseudo_cksum h)
      (with_ports-IsSegment a seg v w)
      (pseudo_cksum_lt h v.source.ip_fits v.destination.ip_fits (omega arith))

pub wrap_tcp_in_ip_lem :
    (a : FdAdapterBase) (seg : TcpSegment)
    → IsAdapter a
    → IsSegment seg
    → wrap_tcp_in_ip a seg ≡ some (with_ports a seg, ip_datagram a seg)
unfolding wrap_tcp_in_ip
wrap_tcp_in_ip_lem a seg v w = rw ((carried a seg v w).0) refl

pub ip_datagram-IsDatagram :
    (a : FdAdapterBase) (seg : TcpSegment)
    → IsAdapter a
    → IsSegment seg
    → Fits seg
    → IsDatagram (ip_datagram a seg)
unfolding ip_header
ip_datagram-IsDatagram a seg v w room =
    let ported = with_ports-IsSegment a seg v w in
    let l = length-segment_wire (with_ports a seg) (wrapped_checksum a seg) ported in
    ground (arith, v.source.ip_fits, v.destination.ip_fits, l)

-- The receiver is at the other end of the sender's connection.
pub record Faces (a r : FdAdapterBase) : Type 0 where
  pub connected : r.listen ≡ false
  pub here : r.cfg.source ≡ a.cfg.destination
  pub there : r.cfg.destination ≡ a.cfg.source

-- `wrap_tcp_in_ip` puts a segment into a well-formed ip_datagram, and `unwrap_tcp_in_ip` of the adapter at
-- the other end takes out of it the segment, with the sender's ports and its checksum, even if the
-- datagram layer has put `n` into its own checksum field. Addresses and fields fit their types, and
-- the segment an IPv4 datagram.
pub unwrap-wrap_tcp_in_ip :
    (a r : FdAdapterBase) (seg : TcpSegment) (n : ℕ)
    → IsAdapter a
    → IsSegment seg
    → Fits seg
    → Faces a r
    → (wrap_tcp_in_ip a seg ≡ some (with_ports a seg, ip_datagram a seg))
      × IsDatagram (ip_datagram a seg)
      × (unwrap_tcp_in_ip r
            (record (ip_datagram a seg) { header = with_cksum (ip_datagram a seg).header n })
          ≡ (r, some (arriving a seg)))
unfolding unwrap_tcp_in_ip ip_header pseudo_cksum
unwrap-wrap_tcp_in_ip a r seg n v w room f =
    let read = (carried a seg v w).1 in
    let here_ip = ap (λ t. t.ipv4_numeric) f.here in
    let here_port = ap (λ t. t.port) f.here in
    let there_ip = ap (λ t. t.ipv4_numeric) f.there in
    let there_port = ap (λ t. t.port) f.there in
    (
      wrap_tcp_in_ip_lem a seg v w,
      ip_datagram-IsDatagram a seg v w room,
      rw read (ground (arith, here_ip, here_port, there_ip, there_port, f.connected)),
    )

-- The listening receiver after the SYN of `a`.
abbrev pub accepted : FdAdapterBase → FdAdapterBase → FdAdapterBase
accepted a r = record {
  cfg = record r.cfg {
    source = record { ipv4_numeric = a.cfg.destination.ipv4_numeric; port = r.cfg.source.port };
    destination = a.cfg.source;
  };
  listen = false;
}

-- A listening adapter takes a SYN without RST to its port, whatever the IP addresses, and from then
-- on it faces the sender and listens no more. Addresses and fields fit their types, and the segment an IPv4
-- datagram.
pub unwrap_syn :
    (a r : FdAdapterBase) (seg : TcpSegment) (n : ℕ)
    → IsAdapter a
    → IsSegment seg
    → r.listen ≡ true
    → r.cfg.source.port ≡ a.cfg.destination.port
    → seg.header.syn ≡ true
    → seg.header.rst ≡ false
    → (unwrap_tcp_in_ip r
          (record (ip_datagram a seg) { header = with_cksum (ip_datagram a seg).header n })
        ≡ (accepted a r, some (arriving a seg)))
      × Faces a (accepted a r)
unfolding unwrap_tcp_in_ip ip_header pseudo_cksum
unwrap_syn a r seg n v w listening port syn no_rst =
    let read = (carried a seg v w).1 in
    (
      rw read (ground (arith, listening, port, syn, no_rst)),
      record {
        connected = refl;
        here = ap (λ p. record { ipv4_numeric = a.cfg.destination.ipv4_numeric; port = p }) port;
        there = refl;
      },
    )
