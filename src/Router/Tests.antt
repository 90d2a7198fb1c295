-- ===== src/Router/Tests.antt =====
-- A router with a datagram in a queue.
use tcp_implementation.Base.{[], ◌∷◌}
use tcp_implementation.Ipv4.{default_header}
use tcp_implementation.Ethernet.{no_address}
use tcp_implementation.NetworkInterface
use tcp_implementation.Router.{Router}

abbrev router : Router
router = record {
  interfaces =
      record {
        interface = NetworkInterface.new no_address (record { ipv4_numeric = 1; port = 0 });
        datagrams_out = record { header = default_header; payload = [] } ∷ [];
      }
      ∷ [];
}
