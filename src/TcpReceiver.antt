-- ===== src/TcpReceiver.antt =====
-- libsponge/tcp_receiver.hh and .cc: inbound segments, the acknowledgment number and the window.
pub mod Order
pub mod Start
mod Tests
use tcp_implementation.Base.{
  ℕ, ◌+◌, Bool, true, false, ◌&&◌, ◌||◌, not, List, [], Option, none, some, ltb, ◌==◌,
  if◌then◌else◌, length, add64, sub64,
}
use mathlib.Core.Option
use tcp_implementation.WrappingIntegers.{WrappingInt32, wrap, unwrap}
use tcp_implementation.StreamReassembler
use tcp_implementation.StreamReassembler.{StreamReassembler, push_substring}
use tcp_implementation.TcpSegment.{TcpSegment}

-- `class TCPReceiver`.
pub record TcpReceiver : Type 0 where
  pub reassembler : StreamReassembler
  pub capacity : ℕ
  pub abs_seqno : ℕ
  pub isn : WrappingInt32
  pub first_segment : Bool

unfoldable pub new : ℕ → TcpReceiver
unfolding StreamReassembler.new
new capacity = record {
  reassembler = StreamReassembler.new capacity;
  capacity = capacity;
  abs_seqno = 0;
  isn = record { raw_value = 0 };
  first_segment = true;
}

unfoldable pub ackno : TcpReceiver → Option WrappingInt32
ackno r = if r.first_segment then none else some (wrap r.abs_seqno r.isn)

unfoldable pub window_size : TcpReceiver → ℕ
window_size r = sub64 r.capacity r.reassembler.output.buffer_size

-- The first SYN sets the initial sequence number.
unfoldable pub synchronize : TcpReceiver → TcpSegment → TcpReceiver
synchronize r seg =
    if r.first_segment && seg.header.syn
    then record r { first_segment = false; isn = seg.header.seqno }
    else r

-- The place in the stream of the byte with absolute number `temp_abs_seqno`.
unfoldable pub stream_index : ℕ → ℕ
stream_index temp_abs_seqno =
    if ltb 0 temp_abs_seqno then sub64 temp_abs_seqno 1 else temp_abs_seqno

-- The end of `segment_received`, after the push.
unfoldable pub advance : TcpSegment → ℕ → TcpReceiver → TcpReceiver
advance seg temp_abs_seqno r =
    let out = r.reassembler.output in
    let counted =
      if not (length seg.payload == 0)
      then add64 out.bytes_written 1
      else if temp_abs_seqno == 0
      then add64 r.abs_seqno 1
      else r.abs_seqno in
    if not (temp_abs_seqno == r.abs_seqno)
    then r
    else if seg.header.fin || out.input_ended
    then record r { abs_seqno = add64 counted 1 }
    else record r { abs_seqno = counted }

-- `segment_received` from the unwrapping on.
unfoldable pub synchronized_received : TcpReceiver → TcpSegment → Option TcpReceiver
synchronized_received r seg =
    let temp_abs_seqno = unwrap seg.header.seqno r.isn r.abs_seqno in
    let pushed =
      push_substring r.reassembler seg.payload (stream_index temp_abs_seqno) seg.header.fin in
    if r.abs_seqno == 1 && ltb temp_abs_seqno r.abs_seqno
    then some r
    else Option.map (λ s. advance seg temp_abs_seqno (record r { reassembler = s })) pushed

-- `segment_received(seg)`; `none` if the reassembler does not return.
unfoldable pub segment_received : TcpReceiver → TcpSegment → Option TcpReceiver
unfolding synchronize synchronized_received
segment_received r seg =
    if r.first_segment && not seg.header.syn
    then some r
    else synchronized_received (synchronize r seg) seg
