-- ===== src/NetworkSimulator.antt =====
-- apps/network_simulator.cc: hosts, and the wires between interfaces. Names of hosts and what is printed
-- are left out; the random payload is an argument. A function gives `none` where the source throws.
pub mod Exchange
mod Tests
use tcp_implementation.Base.{
  ℕ, ◌+◌, ◌*◌, ◌%◌, Bool, true, false, ◌&&◌, not, List, [], ◌∷◌, ◌++◌, Option, none, some, ◌==◌,
  if◌then◌else◌, ◌>>=◌, length, drop, u16_mod,
}
use tcp_implementation.Address.{Address}
use tcp_implementation.Ipv4
use tcp_implementation.Ipv4.{Ipv4Datagram, default_header}
use tcp_implementation.Ethernet.{EthernetAddress, EthernetFrame}
use tcp_implementation.NetworkInterface
use tcp_implementation.NetworkInterface.{send_datagram}
use tcp_implementation.Router.{AsyncNetworkInterface, async, recv_frame}

-- `class Host`.
pub record Host : Type 0 where
  pub my_address : Address
  pub interface : AsyncNetworkInterface
  pub next_hop : Address
  pub expecting_to_receive : List Ipv4Datagram

-- The constructor; `drawn` is the random Ethernet address.
unfoldable pub new : EthernetAddress → Address → Address → Host
new drawn my_address next_hop = record {
  my_address = my_address;
  interface = async (NetworkInterface.new drawn my_address);
  next_hop = next_hop;
  expecting_to_receive = [];
}

unfoldable pub equal_bytes : List ℕ → List ℕ → Bool
equal_bytes [] [] = true
equal_bytes [] (y ∷ ys) = false
equal_bytes (x ∷ xs) [] = false
equal_bytes (x ∷ xs) (y ∷ ys) = x == y && equal_bytes xs ys

-- Whether two datagrams are written alike.
unfoldable pub same_datagram : Ipv4Datagram → Ipv4Datagram → Option Bool
same_datagram x expected = do
  a ← Ipv4.serialize x
  b ← Ipv4.serialize expected
  some (equal_bytes a b)

-- `expecting(expected)`.
unfoldable pub expecting : List Ipv4Datagram → Ipv4Datagram → Option Bool
expecting [] expected = some false
expecting (x ∷ rest) expected = do
  same ← same_datagram x expected
  if same then some true else expecting rest expected

-- `remove_expectation(expected)`.
unfoldable pub remove_expectation : List Ipv4Datagram → Ipv4Datagram → Option (List Ipv4Datagram)
remove_expectation [] expected = some []
remove_expectation (x ∷ rest) expected = do
  same ← same_datagram x expected
  (if same then some rest else do removed ← remove_expectation rest expected; some (x ∷ removed))

-- The datagram of `send_to(destination, ttl)`.
unfoldable pub datagram_to : Host → Address → ℕ → List ℕ → Ipv4Datagram
datagram_to h destination ttl payload = record {
  header = record default_header {
    src = h.my_address.ipv4_numeric;
    dst = destination.ipv4_numeric;
    len = (default_header.hlen * 4 + length payload) % u16_mod;
    ttl = ttl;
  };
  payload = payload;
}

-- `send_to(destination, ttl)`: the host, and the datagram.
unfoldable pub send_to : Host → Address → ℕ → List ℕ → Option (Host × Ipv4Datagram)
send_to h destination ttl payload = do
  let d = datagram_to h destination ttl payload
  n ← send_datagram h.interface.interface d h.next_hop
  some (record h { interface = record (h.interface) { interface = n } }, d)

-- `expect(expected)`.
unfoldable pub expect : Host → Ipv4Datagram → Host
expect h expected = record h { expecting_to_receive = h.expecting_to_receive ++ expected ∷ [] }

-- The loop of `check()`: what is still expected after the datagrams of the queue.
unfoldable pub check_loop : List Ipv4Datagram → List Ipv4Datagram → Option (List Ipv4Datagram)
check_loop expected [] = some expected
check_loop expected (d ∷ rest) = do
  known ← expecting expected d
  left ← remove_expectation expected d
  if known then check_loop left rest else none

-- The test at the end of `check()`.
abbrev pub none_left : Host → List Ipv4Datagram → Option Host
none_left h [] = some (record h {
  interface = record (h.interface) { datagrams_out = [] };
  expecting_to_receive = [];
})
none_left h (d ∷ rest) = none

-- `check()`.
unfoldable pub check : Host → Option Host
check h = do left ← check_loop h.expecting_to_receive h.interface.datagrams_out; none_left h left

-- `deliver(..., src, ..., dst)`.
unfoldable pub deliver : List EthernetFrame → AsyncNetworkInterface → Option AsyncNetworkInterface
deliver [] dst = some dst
deliver (frame ∷ rest) dst = do dst ← recv_frame dst frame; deliver rest dst

-- `clear(queue1, queue2)` on the frames of an interface, of which `frames` is the older copy.
unfoldable pub clear : List EthernetFrame → AsyncNetworkInterface → AsyncNetworkInterface
clear frames a = record a {
  interface = record (a.interface) { frames_out = drop (length frames) a.interface.frames_out };
}

-- `exchange_frames(..., x, ..., y)`.
unfoldable pub exchange_frames :
    AsyncNetworkInterface
    → AsyncNetworkInterface
    → Option (AsyncNetworkInterface × AsyncNetworkInterface)
exchange_frames x y = do
  let x_frames = x.interface.frames_out
  let y_frames = y.interface.frames_out
  y ← deliver x_frames y
  x ← deliver y_frames x
  some (clear x_frames x, clear y_frames y)

-- `exchange_frames(..., x, ..., y, ..., z)`.
unfoldable pub exchange_three :
    AsyncNetworkInterface
    → AsyncNetworkInterface
    → AsyncNetworkInterface
    → Option (AsyncNetworkInterface × AsyncNetworkInterface × AsyncNetworkInterface)
exchange_three x y z = do
  let x_frames = x.interface.frames_out
  let y_frames = y.interface.frames_out
  let z_frames = z.interface.frames_out
  y ← deliver x_frames y
  z ← deliver x_frames z
  x ← deliver y_frames x
  z ← deliver y_frames z
  x ← deliver z_frames x
  y ← deliver z_frames y
  some (clear x_frames x, clear y_frames y, clear z_frames z)
