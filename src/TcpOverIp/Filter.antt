-- ===== src/TcpOverIp/Filter.antt =====
-- What tcp_over_ip.cc does not take out of a datagram.
use tcp_implementation.Base.{◌≡◌, true, false, some, arith}
use tcp_implementation.Parser.{is_error}
use tcp_implementation.TcpSegment.{TcpSegment, default_segment}
use tcp_implementation.TcpSegment.Wire
use tcp_implementation.Ipv4.{Ipv4Datagram, pseudo_cksum, proto_tcp}
use tcp_implementation.TcpOverIp.{FdAdapterBase, unwrap_tcp_in_ip}

-- A connected adapter takes a segment only out of a datagram from its peer to itself that says that it
-- holds TCP and whose segment has no error and the ports of the connection; it does not change.
pub unwrap_connected :
    (a a' : FdAdapterBase) (d : Ipv4Datagram) (seg : TcpSegment)
    → a.listen ≡ false
    → unwrap_tcp_in_ip a d ≡ (a', some seg)
    → (a' ≡ a)
      × (d.header.dst ≡ a.cfg.source.ipv4_numeric)
      × (d.header.src ≡ a.cfg.destination.ipv4_numeric)
      × (d.header.proto ≡ proto_tcp)
      × ((Wire.parse default_segment d.payload (pseudo_cksum d.header)).0 ≡ seg)
      × (is_error (Wire.parse default_segment d.payload (pseudo_cksum d.header)).1 ≡ false)
      × (seg.header.dport ≡ a.cfg.source.port)
      × (seg.header.sport ≡ a.cfg.destination.port)
unfolding unwrap_tcp_in_ip
unwrap_connected a a' d seg connected e = ground (arith, connected, e)

-- A listening adapter that takes a segment has taken a SYN without RST to its port, and faces its
-- sender without listening any more.
pub unwrap_listening :
    (a a' : FdAdapterBase) (d : Ipv4Datagram) (seg : TcpSegment)
    → a.listen ≡ true
    → unwrap_tcp_in_ip a d ≡ (a', some seg)
    → (seg.header.syn ≡ true)
      × (seg.header.rst ≡ false)
      × (seg.header.dport ≡ a.cfg.source.port)
      × (a'.listen ≡ false)
      × (a'.cfg.source.ipv4_numeric ≡ d.header.dst)
      × (a'.cfg.destination.ipv4_numeric ≡ d.header.src)
      × (a'.cfg.destination.port ≡ seg.header.sport)
unfolding unwrap_tcp_in_ip
unwrap_listening a a' d seg listening e = ground (arith, listening, e)
