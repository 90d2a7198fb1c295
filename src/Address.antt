-- ===== src/Address.antt =====
-- libsponge/util/address.hh and .cc. The addresses of the stack are IPv4 addresses with a port, which
-- the `sockaddr_in` of the class holds in network byte order.
use tcp_implementation.Base.{ℕ, Bool, ◌==◌, ◌&&◌}

-- `class Address`: what `ipv4_numeric()` and `port()` return.
pub record Address : Type 0 where
  pub ipv4_numeric : ℕ
  pub port : ℕ

-- `Address::from_ipv4_numeric(ip_address)`, whose port is zero.
abbrev pub from_ipv4_numeric : ℕ → Address
from_ipv4_numeric ip_address = record { ipv4_numeric = ip_address; port = 0 }

-- `operator==`.
unfoldable pub equal_address : Address → Address → Bool
equal_address a b = (a.ipv4_numeric == b.ipv4_numeric) && (a.port == b.port)
