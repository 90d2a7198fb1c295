-- ===== src/Benchmark.antt =====
-- apps/tcp_benchmark.cc: one connection sends to another in memory. The clock and the output are left
-- out; `none` is where the program throws, or where an operation does not return.
pub mod Writing
mod Tests
use tcp_implementation.Base.{
  ℕ, zero, suc, Bool, true, false, ◌&&◌, ◌||◌, not, List, [], ◌∷◌, ◌++◌, Option, none, some, ◌==◌,
  ltb, if◌then◌else◌, ◌>>=◌, length, take, drop, min,
}
use mathlib.Core.Option
use tcp_implementation.ByteStream
use tcp_implementation.TcpSegment.{TcpSegment}
use tcp_implementation.WrappingIntegers.{WrappingInt32}
use tcp_implementation.TcpConnection
use tcp_implementation.TcpConnection.{
  TcpConfig, TcpConnection, connect, end_input_stream, segment_received, tick,
}
use tcp_implementation.TcpSocket.{inbound_stream, with_inbound, remaining_outbound_capacity}

-- The loops of `move_segments` over the segments.
unfoldable pub receive_all : TcpConnection → List TcpSegment → Option TcpConnection
receive_all y [] = some y
receive_all y (seg ∷ segs) = do y' ← segment_received y seg; receive_all y' segs

-- `rbegin()` to `rend()`.
unfoldable pub backwards : List TcpSegment → List TcpSegment
backwards [] = []
backwards (seg ∷ segs) = backwards segs ++ seg ∷ []

-- `move_segments(x, y, segments, reorder)`, where `segments` is empty before and after.
unfoldable pub move_segments :
    TcpConnection → TcpConnection → Bool → Option (TcpConnection × TcpConnection)
move_segments x y reorder = do
  y' ← receive_all y (if reorder then backwards x.segments_out else x.segments_out)
  some (record x { segments_out = [] }, y')

-- What the loop that writes comes to: the connection and the bytes left, a throw, or no end yet.
pub data Feeding : Type 0 where
  fed : TcpConnection → List ℕ → Feeding
  mismatched : Feeding
  unfinished : Feeding

-- The loop that writes into `x`, with fuel.
unfoldable pub feed : ℕ → TcpConnection → List ℕ → Feeding
feed zero x bytes = unfinished
feed (suc fuel) x bytes =
    let want = min (remaining_outbound_capacity x) (length bytes) in
    let written = TcpConnection.write x (take want bytes) in
    let rest = feed fuel written.0 (drop written.1 bytes) in
    if length bytes == 0 || remaining_outbound_capacity x == 0
    then fed x bytes
    else if written.1 == want
    then rest
    else mismatched

unfoldable pub write_input : TcpConnection → List ℕ → Feeding
write_input x bytes = feed (suc (length bytes)) x bytes

-- The variables of `main_loop`.
pub record Benchmark : Type 0 where
  pub x : TcpConnection
  pub y : TcpConnection
  pub bytes_to_send : List ℕ
  pub x_closed : Bool
  pub string_received : List ℕ

-- The start of `main_loop`; the initial sequence numbers and the bytes are drawn.
unfoldable pub begin : TcpConfig → WrappingInt32 → WrappingInt32 → List ℕ → Benchmark
begin config x_isn y_isn bytes = record {
  x = connect (TcpConnection.new config x_isn);
  y = end_input_stream (TcpConnection.new config y_isn);
  bytes_to_send = bytes;
  x_closed = false;
  string_received = [];
}

-- All bytes are written: the stream of `x` ends.
unfoldable pub close_x : Benchmark → Benchmark
close_x b =
    if length b.bytes_to_send == 0 && not b.x_closed
    then record b { x = end_input_stream b.x; x_closed = true }
    else b

-- What has arrived at `y` is read.
unfoldable pub take_output : Benchmark → Benchmark
take_output b =
    let available_output = (inbound_stream b.y).buffer_size in
    let output = ByteStream.read (inbound_stream b.y) available_output in
    if ltb 0 available_output
    then record b { y = with_inbound b.y output.0; string_received = b.string_received ++ output.1 }
    else b

-- `loop` after its first loop.
unfoldable pub exchange : Bool → Benchmark → Option Benchmark
exchange reorder b = do
  let closed = close_x b
  there ← move_segments closed.x closed.y reorder
  back ← move_segments there.1 there.0 false
  let received = take_output (record closed { x = back.1; y = back.0 })
  x' ← tick received.x 1000
  y' ← tick received.y 1000
  some (record received { x = x'; y = y' })

unfoldable pub loop_from : Bool → Benchmark → Feeding → Option Benchmark
loop_from reorder b (fed x left) = exchange reorder (record b { x = x; bytes_to_send = left })
loop_from reorder b mismatched = none
loop_from reorder b unfinished = none

-- One call of `loop`.
unfoldable pub loop : Bool → Benchmark → Option Benchmark
loop reorder b = loop_from reorder b (write_input b.x b.bytes_to_send)
