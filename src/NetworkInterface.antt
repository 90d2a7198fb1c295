-- ===== src/NetworkInterface.antt =====
-- libsponge/network_interface.hh and .cc: frames and datagrams, and ARP between them. A function gives
-- `none` where the source throws. Lists of buffers are the bytes in them, but for
-- the payload that `recv_buffers` takes.
pub mod Frames
pub mod Resolve
pub mod Waiting
pub mod Received
pub mod Time
pub mod Delivery
mod Tests
use tcp_implementation.Base.{
  ℕ, zero, suc, ◌+◌, ◌-◌, Bool, true, false, not, List, [], ◌∷◌, ◌++◌, Option, none, some, leb,
  ◌==◌, ◌&&◌, ◌||◌, if◌then◌else◌, ◌>>=◌, find, assign, erase,
}
use tcp_implementation.Buffer.{Buffer, str, to_buffer}
use tcp_implementation.Parser.{is_error}
use tcp_implementation.Address.{Address}
use tcp_implementation.Ipv4
use tcp_implementation.Ipv4.{Ipv4Datagram}
use tcp_implementation.Ethernet.{
  EthernetAddress, EthernetHeader, EthernetFrame, ethernet_broadcast, no_address, same_address,
  type_ipv4, type_arp,
}
use tcp_implementation.Arp
use tcp_implementation.Arp.{ArpMessage, default_message, opcode_request, opcode_reply}

-- `struct ARP_Entry`.
pub record ArpEntry : Type 0 where
  pub eth_addr : EthernetAddress
  pub ttl : ℕ

-- `class NetworkInterface`.
pub record NetworkInterface : Type 0 where
  pub ethernet_address : EthernetAddress
  pub ip_address : Address
  pub frames_out : List EthernetFrame
  pub arp_table : List (ℕ × ArpEntry)
  pub waiting_arp_response_ip_addr : List (ℕ × ℕ)
  pub waiting_arp_internet_datagrams : List (Address × Ipv4Datagram)

abbrev pub arp_entry_default_ttl : ℕ
arp_entry_default_ttl = 30000

abbrev pub arp_response_default_ttl : ℕ
arp_response_default_ttl = 5000

-- The constructor.
abbrev pub new : EthernetAddress → Address → NetworkInterface
new ethernet_address ip_address = record {
  ethernet_address = ethernet_address;
  ip_address = ip_address;
  frames_out = [];
  arp_table = [];
  waiting_arp_response_ip_addr = [];
  waiting_arp_internet_datagrams = [];
}

-- `make_ARP(result, ...)`: `result` after the call.
abbrev pub make_arp : ArpMessage → ℕ → EthernetAddress → ℕ → EthernetAddress → ℕ → ArpMessage
make_arp result opcode sender_ethernet sender_ip target_ethernet target_ip = record result {
  opcode = opcode;
  sender_ethernet_address = sender_ethernet;
  sender_ip_address = sender_ip;
  target_ethernet_address = target_ethernet;
  target_ip_address = target_ip;
}

-- `_frames_out.push(eth)`.
abbrev pub push_frame : NetworkInterface → EthernetFrame → NetworkInterface
push_frame n eth = record n { frames_out = n.frames_out ++ eth ∷ [] }

abbrev pub make_frame : EthernetAddress → EthernetAddress → ℕ → List ℕ → EthernetFrame
make_frame dst src ether_type payload = record {
  header = record { dst = dst; src = src; ether_type = ether_type };
  payload = payload;
}

-- `make_and_send_ETHframe(arp)`.
abbrev pub broadcast_arp : NetworkInterface → ArpMessage → Option NetworkInterface
broadcast_arp n arp = do
  payload ← Arp.serialize arp
  some (push_frame n (make_frame ethernet_broadcast n.ethernet_address type_arp payload))

-- `make_and_send_ETHframe(src_eth_addr, arp)`.
abbrev pub send_arp : NetworkInterface → EthernetAddress → ArpMessage → Option NetworkInterface
send_arp n src_eth_addr arp = do
  payload ← Arp.serialize arp
  some (push_frame n (make_frame src_eth_addr n.ethernet_address type_arp payload))

-- `make_and_send_ETHframe(dgram, apr_entry)`.
abbrev pub send_ipv4 : NetworkInterface → Ipv4Datagram → ArpEntry → Option NetworkInterface
send_ipv4 n dgram arp_entry = do
  payload ← Ipv4.serialize dgram
  some (push_frame n (make_frame arp_entry.eth_addr n.ethernet_address type_ipv4 payload))

-- The request for the Ethernet address of `ip`.
abbrev pub arp_request : NetworkInterface → ℕ → ArpMessage
arp_request n ip =
    make_arp default_message opcode_request n.ethernet_address n.ip_address.ipv4_numeric no_address
      ip

-- The inner `if` of `send_datagram`.
unfoldable pub ask : NetworkInterface → ℕ → Option NetworkInterface
ask n ip = elim (find ip n.waiting_arp_response_ip_addr) [
  | some _ ↦ some n
  | none ↦ do
    n ← broadcast_arp n (arp_request n ip)
    some (record n {
      waiting_arp_response_ip_addr =
          assign ip arp_response_default_ttl n.waiting_arp_response_ip_addr;
    })
]

-- `send_datagram(dgram, next_hop)`.
unfoldable pub send_datagram : NetworkInterface → Ipv4Datagram → Address → Option NetworkInterface
send_datagram n dgram next_hop = elim (find next_hop.ipv4_numeric n.arp_table) [
  | none ↦ do
    n ← ask n next_hop.ipv4_numeric
    some (record n {
      waiting_arp_internet_datagrams = n.waiting_arp_internet_datagrams ++ (next_hop, dgram) ∷ [];
    })
  | some arp_entry ↦ send_ipv4 n dgram arp_entry
]

-- The loop of `recv_frame` over the datagrams that wait: the interface has those that the loop has left
-- behind. `send_datagram` adds none to the list, as it finds the address that was just learned.
unfoldable pub resend_loop :
    ℕ → List (Address × Ipv4Datagram) → NetworkInterface → Option NetworkInterface
resend_loop ip [] n = some n
resend_loop ip ((next_hop, dgram) ∷ rest) n =
    let kept : NetworkInterface = record n {
      waiting_arp_internet_datagrams = n.waiting_arp_internet_datagrams ++ (next_hop, dgram) ∷ [];
    } in
    elim (next_hop.ipv4_numeric == ip) [
      | true ↦ do n ← send_datagram n dgram next_hop; resend_loop ip rest n
      | false ↦ resend_loop ip rest kept
    ]

-- The last `if` of `recv_frame`.
unfoldable pub learn : NetworkInterface → ℕ → EthernetAddress → Option NetworkInterface
learn n src_ip_addr src_eth_addr = do
  let learned : NetworkInterface = record n {
    arp_table =
        assign src_ip_addr (record { eth_addr = src_eth_addr; ttl = arp_entry_default_ttl })
          n.arp_table;
    waiting_arp_internet_datagrams = [];
  }
  n ← resend_loop src_ip_addr n.waiting_arp_internet_datagrams learned
  some
      (record n { waiting_arp_response_ip_addr = erase src_ip_addr n.waiting_arp_response_ip_addr })

abbrev pub is_valid_arp_request : NetworkInterface → ArpMessage → Bool
is_valid_arp_request n m =
    (m.opcode == opcode_request) && (m.target_ip_address == n.ip_address.ipv4_numeric)

abbrev pub is_valid_arp_response : NetworkInterface → ArpMessage → Bool
is_valid_arp_response n m =
    (m.opcode == opcode_reply) && same_address m.target_ethernet_address n.ethernet_address

-- The reply to a request.
abbrev pub arp_reply : NetworkInterface → ArpMessage → ArpMessage
arp_reply n m =
    make_arp default_message opcode_reply n.ethernet_address n.ip_address.ipv4_numeric
      m.sender_ethernet_address m.sender_ip_address

-- What `recv_frame` does with an ARP message.
unfoldable pub recv_arp : NetworkInterface → ArpMessage → Option NetworkInterface
recv_arp n m =
    let is_request = is_valid_arp_request n m in
    let is_response = is_valid_arp_response n m in
    let replied : Option NetworkInterface =
      if is_request then send_arp n m.sender_ethernet_address (arp_reply n m) else some n in
    do
      n ← replied
      (if is_request || is_response
          then learn n m.sender_ip_address m.sender_ethernet_address
          else some n)

-- `recv_frame(frame)` for a payload of one buffer, which stands for its bytes: the interface and the
-- datagram.
unfoldable pub recv_frame :
    NetworkInterface → EthernetFrame → Option (NetworkInterface × Option Ipv4Datagram)
recv_frame n frame =
    if not (same_address frame.header.dst n.ethernet_address)
      && not (same_address frame.header.dst ethernet_broadcast)
    then some (n, none)
    else if frame.header.ether_type == type_ipv4
    then (let (datagram, result) = Ipv4.parse frame.payload in
        some (n, (if is_error result then none else some datagram)))
    else if frame.header.ether_type == type_arp
    then (let (arp_msg, result) = Arp.parse default_message frame.payload in
        if is_error result then some (n, none) else do n ← recv_arp n arp_msg; some (n, none))
    else some (n, none)

-- `recv_frame(frame)` for a payload of any buffers, which the calls of `parse` convert to one.
unfoldable pub recv_buffers :
    NetworkInterface
    → EthernetHeader
    → List Buffer
    → Option (NetworkInterface × Option Ipv4Datagram)
recv_buffers n header payload =
    if not (same_address header.dst n.ethernet_address)
      && not (same_address header.dst ethernet_broadcast)
    then some (n, none)
    else if header.ether_type == type_ipv4 || header.ether_type == type_arp
    then (do
      whole ← to_buffer payload
      recv_frame n (record { header = header; payload = str whole }))
    else some (n, none)

-- The first loop of `tick`.
unfoldable pub expire_loop : ℕ → List (ℕ × ArpEntry) → List (ℕ × ArpEntry)
expire_loop ms [] = []
expire_loop ms ((ip, arp_entry) ∷ rest) =
    if leb arp_entry.ttl ms
    then expire_loop ms rest
    else (ip, record arp_entry { ttl = arp_entry.ttl - ms }) ∷ expire_loop ms rest

-- What a loop comes to that may throw or run on.
pub data Outcome {ℓ} (A : Type ℓ) : Type ℓ where
  returns : A → Outcome A
  throws : Outcome A
  runs_on : Outcome A

-- The second loop of `tick`, on fuel. `done` is what the iterator has passed. After a request the
-- iterator stays.
unfoldable pub request_loop :
    ℕ → ℕ → List (ℕ × ℕ) → List (ℕ × ℕ) → NetworkInterface → Outcome NetworkInterface
request_loop fuel ms done [] n = returns (record n { waiting_arp_response_ip_addr = done })
request_loop zero ms done (_ ∷ _) n = runs_on
request_loop (suc fuel) ms done ((ip, ttl) ∷ rest) n = elim (leb ttl ms) [
  | true ↦ elim (broadcast_arp n (arp_request n ip)) [
    | none ↦ throws
    | some n ↦ request_loop fuel ms done ((ip, arp_response_default_ttl) ∷ rest) n
  ]
  | false ↦ request_loop fuel ms (done ++ (ip, ttl - ms) ∷ []) rest n
]

-- `tick(ms_since_last_tick)`.
unfoldable pub tick : ℕ → NetworkInterface → ℕ → Outcome NetworkInterface
tick fuel n ms =
    request_loop fuel ms [] n.waiting_arp_response_ip_addr
      (record n { arp_table = expire_loop ms n.arp_table })
