-- ===== src/TcpOverIp.antt =====
-- libsponge/tcp_helpers/tcp_over_ip.hh and .cc, with the base class of fd_adapter.hh and
-- `FdAdapterConfig` of tcp_config.hh. The textual address that `inet_ntoa` makes of a number is taken
-- to stand for that number.
pub mod RoundTrip
pub mod Filter
mod Tests
use tcp_implementation.Base.{
  ℕ, ◌+◌, ◌*◌, ◌%◌, Bool, true, false, not, Option, none, some, ◌==◌, ◌&&◌, if◌then◌else◌, ◌>>=◌,
  length, u16_mod,
}
use tcp_implementation.Parser.{is_error}
use tcp_implementation.Address.{Address}
use tcp_implementation.TcpSegment.{TcpHeader, TcpSegment, default_segment}
use tcp_implementation.TcpSegment.Wire
use tcp_implementation.Ipv4.{Ipv4Header, Ipv4Datagram, proto_tcp, default_header, pseudo_cksum}

-- `class FdAdapterConfig`.
pub record FdAdapterConfig : Type 0 where
  pub source : Address
  pub destination : Address
  pub loss_rate_dn : ℕ
  pub loss_rate_up : ℕ

-- `class FdAdapterBase`.
pub record FdAdapterBase : Type 0 where
  pub cfg : FdAdapterConfig
  pub listen : Bool

-- `set_listening(l)`.
abbrev pub set_listening : FdAdapterBase → Bool → FdAdapterBase
set_listening a l = record a { listen = l }

-- The block of `unwrap_tcp_in_ip` that takes the peer of a SYN.
abbrev pub adopt : FdAdapterBase → Ipv4Header → TcpHeader → FdAdapterBase
adopt a ip tcp =
    let config : FdAdapterConfig = record a.cfg {
      source = record { ipv4_numeric = ip.dst; port = a.cfg.source.port };
      destination = record { ipv4_numeric = ip.src; port = tcp.sport };
    } in
    set_listening (record a { cfg = config }) false

-- `unwrap_tcp_in_ip(ip_dgram)` from the check of the sender's port on.
abbrev pub check_peer_port : FdAdapterBase → TcpSegment → FdAdapterBase × Option TcpSegment
check_peer_port a seg =
    if not (seg.header.sport == a.cfg.destination.port) then (a, none) else (a, some seg)

-- `unwrap_tcp_in_ip(ip_dgram)`: the adapter and the segment.
unfoldable pub unwrap_tcp_in_ip : FdAdapterBase → Ipv4Datagram → FdAdapterBase × Option TcpSegment
unwrap_tcp_in_ip a ip_dgram =
    let ip = ip_dgram.header in
    let (seg, result) = Wire.parse default_segment ip_dgram.payload (pseudo_cksum ip) in
    if not a.listen && not (ip.dst == a.cfg.source.ipv4_numeric)
    then (a, none)
    else if not a.listen && not (ip.src == a.cfg.destination.ipv4_numeric)
    then (a, none)
    else if not (ip.proto == proto_tcp)
    then (a, none)
    else if is_error result
    then (a, none)
    else if not (seg.header.dport == a.cfg.source.port)
    then (a, none)
    else if a.listen
    then (if seg.header.syn && not seg.header.rst
        then check_peer_port (adopt a ip seg.header) seg
        else (a, none))
    else check_peer_port a seg

-- The segment with the ports of the adapter.
abbrev pub with_ports : FdAdapterBase → TcpSegment → TcpSegment
with_ports a seg = record seg {
  header = record seg.header { sport = a.cfg.source.port; dport = a.cfg.destination.port };
}

-- The header that `wrap_tcp_in_ip` makes for the segment.
unfoldable pub ip_header : FdAdapterBase → TcpSegment → Ipv4Header
ip_header a seg = record default_header {
  src = a.cfg.source.ipv4_numeric;
  dst = a.cfg.destination.ipv4_numeric;
  len = (default_header.hlen * 4 + seg.header.doff * 4 + length seg.payload) % u16_mod;
}

-- `wrap_tcp_in_ip(seg)`: the segment after the call, and the datagram.
unfoldable pub wrap_tcp_in_ip : FdAdapterBase → TcpSegment → Option (TcpSegment × Ipv4Datagram)
wrap_tcp_in_ip a seg = do
  let seg = with_ports a seg
  payload ← Wire.serialize seg (pseudo_cksum (ip_header a seg))
  some (seg, record { header = ip_header a seg; payload = payload })
