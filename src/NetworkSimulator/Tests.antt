-- ===== src/NetworkSimulator/Tests.antt =====
-- One host sends two bytes to the other.
use tcp_implementation.Base.{ℕ, ◌≡◌, arith, List, [], ◌∷◌, some}
use tcp_implementation.Address.{Address}
use tcp_implementation.Ethernet.{EthernetAddress}
use tcp_implementation.NetworkInterface
use tcp_implementation.NetworkInterface.Frames.{IsInterface}
use tcp_implementation.NetworkSimulator.{Host, new, datagram_to, send_to}
use tcp_implementation.NetworkSimulator.Exchange.{Arrives, send_to-Arrives}

abbrev dm42_ethernet : EthernetAddress
dm42_ethernet = record { b0 = 2; b1 = 1; b2 = 2; b3 = 3; b4 = 4; b5 = 42 }

abbrev dm43_ethernet : EthernetAddress
dm43_ethernet = record { b0 = 2; b1 = 1; b2 = 2; b3 = 3; b4 = 4; b5 = 43 }

abbrev dm42_ip : Address
dm42_ip = record { ipv4_numeric = 3333612842; port = 0 }

abbrev dm43_ip : Address
dm43_ip = record { ipv4_numeric = 3333612843; port = 0 }

dm42-IsInterface : IsInterface (NetworkInterface.new dm42_ethernet dm42_ip)
dm42-IsInterface = ground arith

dm43-IsInterface : IsInterface (NetworkInterface.new dm43_ethernet dm43_ip)
dm43-IsInterface = ground arith

abbrev dm42 : Host
dm42 = new dm42_ethernet dm42_ip dm43_ip

abbrev dm43 : Host
dm43 = new dm43_ethernet dm43_ip dm42_ip

abbrev payload : List ℕ
payload = 104 ∷ 105 ∷ []

send_to-Arrives_example :
    (sent : Host) × (send_to dm42 dm43_ip 64 payload
      ≡ some (sent, datagram_to dm42 dm43_ip 64 payload))
    × Arrives dm42 dm43 (datagram_to dm42 dm43_ip 64 payload) sent
send_to-Arrives_example =
    send_to-Arrives dm42_ethernet dm43_ethernet dm42_ip dm43_ip 64 payload dm42-IsInterface
      dm43-IsInterface (omega arith) (omega arith)
