-- ===== src/Router.antt =====
-- libsponge/router.hh and .cc, with `AsyncNetworkInterface`. `add_route` and `route_one_datagram` are
-- stubs in the source: they keep no route and send nothing.
pub mod Queues
mod Tests
use tcp_implementation.Base.{
  ℕ, zero, suc, ◌-◌, List, [], ◌∷◌, ◌++◌, Option, none, some, ◌>>=◌, length,
}
use tcp_implementation.Address.{Address}
use tcp_implementation.Ipv4.{Ipv4Datagram}
use tcp_implementation.Ethernet.{EthernetFrame}
use tcp_implementation.NetworkInterface
use tcp_implementation.NetworkInterface.{NetworkInterface}

-- `class AsyncNetworkInterface`.
pub record AsyncNetworkInterface : Type 0 where
  pub interface : NetworkInterface
  pub datagrams_out : List Ipv4Datagram

-- The constructor.
abbrev pub async : NetworkInterface → AsyncNetworkInterface
async interface = record { interface = interface; datagrams_out = [] }

abbrev pub keep_received : AsyncNetworkInterface → Option Ipv4Datagram → AsyncNetworkInterface
keep_received a none = a
keep_received a (some d) = record a { datagrams_out = a.datagrams_out ++ d ∷ [] }

-- `AsyncNetworkInterface::recv_frame(frame)`; `none` where it throws.
unfoldable pub recv_frame : AsyncNetworkInterface → EthernetFrame → Option AsyncNetworkInterface
recv_frame a frame = do
  received ← NetworkInterface.recv_frame a.interface frame
  some (keep_received (record a { interface = received.0 }) received.1)

-- `class Router`.
pub record Router : Type 0 where
  pub interfaces : List AsyncNetworkInterface

-- `add_interface(interface)`: the router and the index.
unfoldable pub add_interface : Router → AsyncNetworkInterface → Router × ℕ
add_interface r interface =
    let interfaces = r.interfaces ++ interface ∷ [] in
    (record { interfaces = interfaces }, length interfaces - 1)

-- `interface(N)`, `none` where `at` throws.
unfoldable pub interface_at : List AsyncNetworkInterface → ℕ → Option AsyncNetworkInterface
interface_at [] n = none
interface_at (a ∷ rest) zero = some a
interface_at (a ∷ rest) (suc n) = interface_at rest n

-- `add_route(...)`.
unfoldable pub add_route : Router → ℕ → ℕ → Option Address → ℕ → Router
add_route r route_prefix prefix_length next_hop interface_num = r

-- `route_one_datagram(dgram)`.
unfoldable pub route_one_datagram : Router → Ipv4Datagram → Router
route_one_datagram r dgram = r

-- The inner loop of `route()`: the queue of one interface is emptied.
unfoldable pub route_queue : List Ipv4Datagram → Router → Router
route_queue [] r = r
route_queue (dgram ∷ rest) r = route_queue rest (route_one_datagram r dgram)

-- The outer loop of `route()`, over the interfaces; `done` are those that it has passed.
unfoldable pub route_loop :
    List AsyncNetworkInterface → List AsyncNetworkInterface → Router → Router
route_loop done [] r = record { interfaces = done }
route_loop done (a ∷ rest) r =
    route_loop (done ++ record a { datagrams_out = [] } ∷ []) rest (route_queue a.datagrams_out r)

-- `route()`.
unfoldable pub route : Router → Router
route r = route_loop [] r.interfaces r
