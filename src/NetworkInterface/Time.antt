-- ===== src/NetworkInterface/Time.antt =====
-- `NetworkInterface::tick` of network_interface.cc: what a tick of less than five seconds does, and that
-- the loop over the requests does not end in a longer one.
use tcp_implementation.Base.{
  ℕ, zero, suc, ◌+◌, ◌-◌, ◌≤◌, ◌≡◌, refl, ◌∙◌, true, List, [], ◌∷◌, ◌++◌, none, some, ◌==◌, leb,
  if◌then◌else◌, arith, find, Bool-cases, inl, inr, le→leb,
}
use tcp_implementation.Address.{Address}
use tcp_implementation.Ipv4.{Ipv4Datagram}
use tcp_implementation.Ethernet.{EthernetFrame}
use tcp_implementation.NetworkInterface.{
  NetworkInterface, ArpEntry, arp_response_default_ttl, push_frame, expire_loop, request_loop, tick,
  runs_on,
}
use tcp_implementation.NetworkInterface.Frames.{request_frame, broadcast_arp_lem}
use tcp_implementation.NetworkInterface.Waiting.{IsAsking, IsAsked, AllAsked}

-- For the ARP table, a tick and a further one come to one tick of both times.
pub expire_loop-expire_loop :
    (a b : ℕ) (table : List (ℕ × ArpEntry))
    → expire_loop b (expire_loop a table) ≡ expire_loop (a + b) table
unfolding expire_loop
expire_loop-expire_loop a b [] = refl
expire_loop-expire_loop a b ((ip, e) ∷ rest) = ground (arith, expire_loop-expire_loop a b rest)

expire_loop-none :
    (ip ms : ℕ) (table : List (ℕ × ArpEntry))
    → find ip table ≡ none
    → find ip (expire_loop ms table) ≡ none
unfolding expire_loop find
expire_loop-none ip ms [] h = refl
expire_loop-none ip ms ((k, e) ∷ rest) h = elim (Bool-cases (k == ip)) [
  | inl same ↦ absurd (ground (arith, h, same))
  | inr other ↦
      let below = expire_loop-none ip ms rest (ground (arith, h, other)) in
      ground (arith, below, other)
]

-- The requests that go out in a tick.
abbrev pub requests : NetworkInterface → ℕ → List (ℕ × ℕ) → List EthernetFrame
requests n ms [] = []
requests n ms ((ip, ttl) ∷ rest) =
    if leb ttl ms then request_frame n ip ∷ requests n ms rest else requests n ms rest

-- The times after a tick: a request that was sent anew counts the tick too.
abbrev pub counted : ℕ → List (ℕ × ℕ) → List (ℕ × ℕ)
counted ms [] = []
counted ms ((ip, ttl) ∷ rest) =
    (ip, (if leb ttl ms then arp_response_default_ttl - ms else ttl - ms)) ∷ counted ms rest

-- One round of the loop.
request_loop_due :
    (fuel ms : ℕ) (done rest : List (ℕ × ℕ)) (ip ttl : ℕ) (n : NetworkInterface)
    → leb ttl ms ≡ true
    → request_loop (suc fuel) ms done ((ip, ttl) ∷ rest) n
      ≡ request_loop fuel ms done
          ((ip, arp_response_default_ttl) ∷ rest)
          (push_frame n (request_frame n ip))
unfolding request_loop
request_loop_due fuel ms done rest ip ttl n due =
    rw (due, request_loop) (rw (broadcast_arp_lem n ip) refl)

-- The interface after a tick of less than five seconds.
abbrev pub after_tick : NetworkInterface → ℕ → NetworkInterface
after_tick n ms = record n {
  frames_out = n.frames_out ++ requests n ms n.waiting_arp_response_ip_addr;
  arp_table = expire_loop ms n.arp_table;
  waiting_arp_response_ip_addr = counted ms n.waiting_arp_response_ip_addr;
}

counted-find :
    (ip ttl ms : ℕ) (asked : List (ℕ × ℕ))
    → find ip (counted ms asked) ≡ some ttl
    → IsAsked asked ip
unfolding find
counted-find ip ttl ms [] h = absurd (ground (arith, h))
counted-find ip ttl ms ((k, t) ∷ rest) h = elim (Bool-cases (k == ip)) [
  | inl same ↦ (t, rw same refl)
  | inr other ↦
      let below = counted-find ip ttl ms rest (ground (arith, h, other)) in
      (below.0, rw other below.1)
]

counted-IsAsked :
    (ip ms : ℕ) (asked : List (ℕ × ℕ)) → IsAsked asked ip → IsAsked (counted ms asked) ip
unfolding find
counted-IsAsked ip ms [] h = absurd (ground (arith, h.1))
counted-IsAsked ip ms ((k, t) ∷ rest) h = elim (Bool-cases (k == ip)) [
  | inl same ↦ ((if leb t ms then arp_response_default_ttl - ms else t - ms), rw same refl)
  | inr other ↦
      let below = counted-IsAsked ip ms rest (h.0, ground (arith, h.1, other)) in
      (below.0, rw other below.1)
]

counted-AllAsked :
    (ms : ℕ) (asked : List (ℕ × ℕ)) (waiting : List (Address × Ipv4Datagram))
    → AllAsked asked waiting
    → AllAsked (counted ms asked) waiting
counted-AllAsked ms asked [] h = tt
counted-AllAsked ms asked (w ∷ rest) h =
    (counted-IsAsked w.0.ipv4_numeric ms asked h.0, counted-AllAsked ms asked rest h.1)

-- A tick keeps the invariant of `recv_frame-IsAsking`.
pub tick-IsAsking : (n : NetworkInterface) (ms : ℕ) → IsAsking n → IsAsking (after_tick n ms)
tick-IsAsking n ms v = record {
  datagrams = v.datagrams;
  unknown = λ ip ttl h.
      let asked = counted-find ip ttl ms n.waiting_arp_response_ip_addr h in
      expire_loop-none ip ms n.arp_table (v.unknown ip asked.0 asked.1);
  waiting =
      counted-AllAsked ms n.waiting_arp_response_ip_addr n.waiting_arp_internet_datagrams v.waiting;
}

request_loop_runs_on :
    (fuel ms : ℕ) (done rest : List (ℕ × ℕ)) (ip ttl : ℕ) (n : NetworkInterface)
    → arp_response_default_ttl ≤ ms
    → ttl ≤ ms
    → request_loop fuel ms done ((ip, ttl) ∷ rest) n ≡ runs_on
unfolding request_loop
request_loop_runs_on zero ms done rest ip ttl n long due = refl
request_loop_runs_on (suc fuel) ms done rest ip ttl n long due =
    request_loop_due fuel ms done rest ip ttl n (le→leb ttl ms due)
    ∙ request_loop_runs_on fuel ms done rest ip arp_response_default_ttl
        (push_frame n (request_frame n ip)) long long

-- A tick of five seconds or more with a request under way does not return: no number of rounds is
-- enough, as the request that is sent anew is due again at once. Times of requests are at most five
-- seconds.
pub tick_runs_on :
    (fuel : ℕ) (n : NetworkInterface) (ms ip ttl : ℕ) (rest : List (ℕ × ℕ))
    → n.waiting_arp_response_ip_addr ≡ (ip, ttl) ∷ rest
    → ttl ≤ 5000
    → 5000 ≤ ms
    → tick fuel n ms ≡ runs_on
unfolding tick
tick_runs_on fuel n ms ip ttl rest waiting at_most long = rw waiting (
    request_loop_runs_on fuel ms [] rest ip ttl
      (record n {
        arp_table = expire_loop ms n.arp_table;
        waiting_arp_response_ip_addr = (ip, ttl) ∷ rest;
      })
      long (omega arith))
