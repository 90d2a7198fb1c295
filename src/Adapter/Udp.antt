-- ===== src/Adapter/Udp.antt =====
-- `TCPOverUDPSocketAdapter` of libsponge/tcp_helpers/fd_adapter.hh and .cc: segments in UDP payloads. The
-- socket gives the sender's address with a payload, and is given the receiver's.
use tcp_implementation.Base.{
  ℕ, ◌≡◌, refl, arith, true, false, not, ◌&&◌, List, [], ◌∷◌, Option, none, some, if◌then◌else◌,
  ◌>>=◌,
}
use tcp_implementation.Parser.{is_error}
use tcp_implementation.Address.{Address, equal_address}
use tcp_implementation.TcpSegment.{TcpSegment, default_segment}
use tcp_implementation.TcpSegment.Wire
use tcp_implementation.TcpSegment.RoundTrip.{
  IsSegment, segment_wire, segment_checksum_of, parse-serialize_segment,
}
use tcp_implementation.TcpOverIp.{FdAdapterBase, FdAdapterConfig, set_listening, with_ports}
use tcp_implementation.TcpOverIp.RoundTrip.{IsAdapter, with_ports-IsSegment}
use tcp_implementation.Adapter.{AdapterOps}

-- `read()` of what the socket gives.
unfoldable pub udp_read : FdAdapterBase → Address × List ℕ → FdAdapterBase × Option TcpSegment
udp_read a (source_address, payload) =
    let (seg, result) = Wire.parse default_segment payload 0 in
    let config : FdAdapterConfig = record a.cfg { destination = source_address } in
    if not a.listen && not (equal_address source_address a.cfg.destination)
    then (a, none)
    else if is_error result
    then (a, none)
    else if a.listen
    then (if seg.header.syn && not seg.header.rst
        then (set_listening (record a { cfg = config }) false, some seg)
        else (a, none))
    else (a, some seg)

-- `write(seg)`: the segment after the call, and what goes to whom.
unfoldable pub udp_write :
    FdAdapterBase → TcpSegment → Option (FdAdapterBase × TcpSegment × List (Address × List ℕ))
udp_write a seg = do
  let seg = with_ports a seg
  payload ← Wire.serialize seg 0
  some (a, seg, (a.cfg.destination, payload) ∷ [])

unfoldable pub udp_ops : AdapterOps FdAdapterBase (Address × List ℕ) (Address × List ℕ)
udp_ops = record { config = λ a. a.cfg; read = udp_read; write = udp_write }

-- The segment as it arrives.
abbrev pub udp_arriving : FdAdapterBase → TcpSegment → TcpSegment
udp_arriving a seg = record seg {
  header = Wire.with_cksum (with_ports a seg).header (segment_checksum_of (with_ports a seg) 0);
}

abbrev pub udp_payload : FdAdapterBase → TcpSegment → List ℕ
udp_payload a seg = segment_wire (with_ports a seg) (segment_checksum_of (with_ports a seg) 0)

-- What one adapter writes for a segment goes to its peer; an adapter that listens for nobody and knows
-- the address from which the payload comes reads of it the segment, with the sender's ports and its
-- checksum. Addresses and fields fit their types.
pub udp_read-udp_write :
    (a r : FdAdapterBase) (seg : TcpSegment)
    → IsAdapter a
    → IsSegment seg
    → r.listen ≡ false
    → (udp_write a seg ≡ some (a, with_ports a seg, (a.cfg.destination, udp_payload a seg) ∷ []))
      × (udp_read r (r.cfg.destination, udp_payload a seg) ≡ (r, some (udp_arriving a seg)))
unfolding udp_read udp_write equal_address
udp_read-udp_write a r seg v w connected =
    let carried =
      parse-serialize_segment default_segment (with_ports a seg) 0 (with_ports-IsSegment a seg v w)
        (omega arith) in
    (rw carried.0 refl, rw carried.1 (ground (arith, connected)))

-- A connected adapter takes a segment only out of a payload from its peer that has no error, and does
-- not change. It does not look at the ports of the segment.
pub udp_read_connected :
    (a a' : FdAdapterBase) (source : Address) (payload : List ℕ) (seg : TcpSegment)
    → a.listen ≡ false
    → udp_read a (source, payload) ≡ (a', some seg)
    → (a' ≡ a)
      × (equal_address source a.cfg.destination ≡ true)
      × ((Wire.parse default_segment payload 0).0 ≡ seg)
      × (is_error (Wire.parse default_segment payload 0).1 ≡ false)
unfolding udp_read
udp_read_connected a a' source payload seg connected e = ground (arith, connected, e)
