-- ===== src/TcpOverIp/Tests.antt =====
-- The theorems on tcp_over_ip.cc at inputs that meet their hypotheses.
use tcp_implementation.Base.{◌≡◌, refl, arith, true, false, [], ◌∷◌, some}
use tcp_implementation.Parser.{is_error}
use tcp_implementation.Address.{Address}
use tcp_implementation.TcpSegment.{TcpSegment, default_header, default_segment}
use tcp_implementation.TcpSegment.Wire
use tcp_implementation.TcpSegment.RoundTrip.{IsSegment}
use tcp_implementation.Ipv4.{Ipv4Datagram, pseudo_cksum, proto_tcp, with_cksum}
use tcp_implementation.TcpOverIp.{FdAdapterBase, unwrap_tcp_in_ip}
use tcp_implementation.TcpOverIp.RoundTrip.{
  IsAdapter, Faces, arriving, ip_datagram, accepted, unwrap-wrap_tcp_in_ip, unwrap_syn,
}
use tcp_implementation.TcpOverIp.Filter.{unwrap_connected}

abbrev client_address : Address
client_address = record { ipv4_numeric = 167772161; port = 4242 }

abbrev server_address : Address
server_address = record { ipv4_numeric = 167772162; port = 80 }

abbrev client : FdAdapterBase
client = record {
  cfg = record {
    source = client_address;
    destination = server_address;
    loss_rate_dn = 0;
    loss_rate_up = 0;
  };
  listen = false;
}

abbrev server : FdAdapterBase
server = record {
  cfg = record {
    source = server_address;
    destination = client_address;
    loss_rate_dn = 0;
    loss_rate_up = 0;
  };
  listen = false;
}

abbrev listener : FdAdapterBase
listener = record {
  cfg = record {
    source = record { ipv4_numeric = 0; port = 80 };
    destination = record { ipv4_numeric = 0; port = 0 };
    loss_rate_dn = 0;
    loss_rate_up = 0;
  };
  listen = true;
}

abbrev syn_segment : TcpSegment
syn_segment = record {
  header = record default_header { syn = true; win = 1000 };
  payload = 104 ∷ 105 ∷ [];
}

syn_segment-IsSegment : IsSegment syn_segment
syn_segment-IsSegment = ground arith

client-IsAdapter : IsAdapter client
client-IsAdapter = ground arith

client-Faces : Faces client server
client-Faces = record { connected = refl; here = refl; there = refl }

abbrev arrived : Ipv4Datagram
arrived = record (ip_datagram client syn_segment) {
  header = with_cksum (ip_datagram client syn_segment).header 5;
}

unwrap_syn_example :
    (unwrap_tcp_in_ip listener arrived
      ≡ (accepted client listener, some (arriving client syn_segment)))
    × Faces client (accepted client listener)
unwrap_syn_example =
    unwrap_syn client listener syn_segment 5 client-IsAdapter syn_segment-IsSegment refl refl refl
      refl

unwrap_connected_example :
    (server ≡ server)
    × (arrived.header.dst ≡ 167772162)
    × (arrived.header.src ≡ 167772161)
    × (arrived.header.proto ≡ proto_tcp)
    × ((Wire.parse default_segment arrived.payload (pseudo_cksum arrived.header)).0
        ≡ arriving client syn_segment)
    × (is_error (Wire.parse default_segment arrived.payload (pseudo_cksum arrived.header)).1
        ≡ false)
    × ((arriving client syn_segment).header.dport ≡ server.cfg.source.port)
    × ((arriving client syn_segment).header.sport ≡ server.cfg.destination.port)
unwrap_connected_example =
    unwrap_connected server server arrived (arriving client syn_segment) refl (
      (unwrap-wrap_tcp_in_ip client server syn_segment 5 client-IsAdapter syn_segment-IsSegment
        (omega arith) client-Faces).2)
