-- ===== src/Adapter/Tests.antt =====
-- The theorems on the adapters at inputs that meet their hypotheses.
use tcp_implementation.Base.{ℕ, suc, ◌≡◌, refl, arith, true, false, List, [], ◌∷◌, ◌++◌, some, find}
use tcp_implementation.Address.{Address}
use tcp_implementation.TcpSegment.{TcpSegment, default_header}
use tcp_implementation.TcpSegment.RoundTrip.{IsSegment}
use tcp_implementation.Parser.{u8, u16, u32, parse_int}
use tcp_implementation.Ipv4
use tcp_implementation.Ethernet
use tcp_implementation.Ethernet.{EthernetAddress}
use tcp_implementation.Ethernet.RoundTrip.{IsAddress}
use tcp_implementation.NetworkInterface
use tcp_implementation.NetworkInterface.{NetworkInterface, ArpEntry}
use tcp_implementation.TcpOverIp.{FdAdapterBase, with_ports}
use tcp_implementation.TcpOverIp.RoundTrip.{IsAdapter, Faces, arriving}
use tcp_implementation.Adapter.Tun.{tun_ops, tun_read}
use tcp_implementation.Adapter.Lossy.{LossyFdAdapter}
use tcp_implementation.Adapter.Tap.{TapAdapter, carrying, tap_read, tap_write, tap_read-tap_write}

abbrev client_address : Address
client_address = record { ipv4_numeric = 167772161; port = 4242 }

abbrev server_address : Address
server_address = record { ipv4_numeric = 167772162; port = 80 }

abbrev base : Address → Address → FdAdapterBase
base source destination = record {
  cfg = record { source = source; destination = destination; loss_rate_dn = 0; loss_rate_up = 0 };
  listen = false;
}

abbrev client_ethernet : EthernetAddress
client_ethernet = record { b0 = 2; b1 = 0; b2 = 0; b3 = 0; b4 = 0; b5 = 1 }

abbrev server_ethernet : EthernetAddress
server_ethernet = record { b0 = 2; b1 = 0; b2 = 0; b3 = 0; b4 = 0; b5 = 2 }

abbrev entry : ArpEntry
entry = record { eth_addr = server_ethernet; ttl = 100 }

abbrev client : TapAdapter
client = record {
  base = base client_address server_address;
  tap = [];
  interface = record (NetworkInterface.new client_ethernet client_address) {
    arp_table = (167772162, entry) ∷ [];
  };
  next_hop = server_address;
}

abbrev server : TapAdapter
server = record {
  base = base server_address client_address;
  tap = [];
  interface = NetworkInterface.new server_ethernet server_address;
  next_hop = client_address;
}

abbrev syn_segment : TcpSegment
syn_segment = record {
  header = record default_header { syn = true; win = 1000 };
  payload = 104 ∷ 105 ∷ [];
}

syn_segment-IsSegment : IsSegment syn_segment
syn_segment-IsSegment = ground arith

client-IsAdapter : IsAdapter client.base
client-IsAdapter = ground arith

client-Faces : Faces client.base server.base
client-Faces = record { connected = refl; here = refl; there = refl }

client_ethernet-IsAddress : IsAddress client_ethernet
client_ethernet-IsAddress = ground arith

server_ethernet-IsAddress : IsAddress server_ethernet
server_ethernet-IsAddress = ground arith

known : find 167772162 client.interface.arp_table ≡ some entry
unfolding find
known = refl

abbrev frame : List ℕ
frame = Ethernet.serialize (carrying client server_ethernet syn_segment)

tap_read-tap_write_example :
    (tap_write client syn_segment
      ≡ some (record client { tap = client.tap ++ frame ∷ [] }, with_ports client.base syn_segment))
    × (tap_read server frame ≡ some (server, some (arriving client.base syn_segment)))
tap_read-tap_write_example =
    tap_read-tap_write client server syn_segment entry client-IsAdapter syn_segment-IsSegment
      (omega arith) client-Faces known refl refl refl server_ethernet-IsAddress
      client_ethernet-IsAddress

-- A generator that counts.
abbrev count : ℕ → ℕ × ℕ
count n = (n, suc n)

abbrev lossless : LossyFdAdapter FdAdapterBase ℕ
lossless = record { rand = 5; adapter = client.base }

none_lost : (tun_ops.config (tun_ops.read client.base []).0).loss_rate_dn ≡ 0
unfolding tun_ops tun_read Ipv4.parse Ipv4.parse_header Ipv4.check_header u8 u16 u32 parse_int
none_lost = refl
