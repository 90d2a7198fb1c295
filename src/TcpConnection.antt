-- ===== src/TcpConnection.antt =====
-- libsponge/tcp_connection.hh and .cc: an endpoint, of a receiver, a sender and a queue.
pub mod Sending
pub mod Reset
pub mod Keeps
pub mod Reach
mod Tests
use tcp_implementation.Base.{
  ℕ, ◌+◌, ◌*◌, ◌%◌, Bool, true, false, ◌&&◌, ◌||◌, not, List, [], ◌∷◌, ◌++◌, Option, none, some,
  ltb, leb, ◌==◌, if◌then◌else◌, length, add64, u16_mod,
}
use mathlib.Core.Option
use tcp_implementation.WrappingIntegers.{WrappingInt32}
use tcp_implementation.ByteStream
use tcp_implementation.ByteStream.{ByteStream, eof, end_input, set_error}
use tcp_implementation.TcpSegment.{TcpHeader, TcpSegment, length_in_sequence_space}
use tcp_implementation.TcpReceiver
use tcp_implementation.TcpReceiver.{TcpReceiver, ackno, window_size}
use tcp_implementation.TcpSender
use tcp_implementation.TcpSender.{
  TcpSender, fill_window, ack_received, send_empty_segment, read_a_segment, is_empty,
}

-- `TCPConfig::MAX_RETX_ATTEMPTS`.
abbrev pub max_retx_attempts : ℕ
max_retx_attempts = 8

-- `class TCPConfig`.
pub record TcpConfig : Type 0 where
  pub rt_timeout : ℕ
  pub recv_capacity : ℕ
  pub send_capacity : ℕ
  pub fixed_isn : Option WrappingInt32

-- `class TCPConnection`.
pub record TcpConnection : Type 0 where
  pub cfg : TcpConfig
  pub receiver : TcpReceiver
  pub sender : TcpSender
  pub segments_out : List TcpSegment
  pub linger_after_streams_finish : Bool
  pub active : Bool
  pub last_tick_time : ℕ

-- The constructor; `drawn` is the initial sequence number that is drawn if none is fixed.
unfoldable pub new : TcpConfig → WrappingInt32 → TcpConnection
new cfg drawn = record {
  cfg = cfg;
  receiver = TcpReceiver.new cfg.recv_capacity;
  sender = TcpSender.new cfg.send_capacity cfg.rt_timeout (Option.get_or cfg.fixed_isn drawn);
  segments_out = [];
  linger_after_streams_finish = true;
  active = true;
  last_tick_time = 0;
}

unfoldable pub check_inbound_ended : TcpConnection → Bool
check_inbound_ended c =
    c.receiver.reassembler.unassembled_bytes == 0 && c.receiver.reassembler.output.input_ended

unfoldable pub check_outbound_ended : TcpConnection → Bool
check_outbound_ended c =
    eof c.sender.stream
    && c.sender.next_seqno == add64 c.sender.stream.bytes_written 2
    && c.sender.bytes_in_flight == 0

-- The acknowledgment number and the window of a segment that goes out.
abbrev pub acknowledged : Option WrappingInt32 → TcpHeader → TcpHeader
acknowledged none h = h
acknowledged (some n) h = record h { ack = true; ackno = n }

unfoldable pub stamped : TcpReceiver → TcpSegment → TcpSegment
stamped r seg = record seg {
  header = record (acknowledged (ackno r) seg.header) { win = window_size r % u16_mod };
}

-- The loop of `send_segments_out` over the sender's queue.
unfoldable pub send_loop : List TcpSegment → Bool → TcpConnection → TcpConnection × Bool
send_loop [] has_sent c = (c, has_sent)
send_loop (seg ∷ rest) has_sent c = send_loop rest true (record c {
  sender = record (c.sender) { segments_out = rest };
  segments_out = c.segments_out ++ stamped c.receiver seg ∷ [];
})

-- `send_segments_out()`: the connection, and whether it sent something.
unfoldable pub send_segments_out : TcpConnection → TcpConnection × Bool
send_segments_out c = send_loop c.sender.segments_out false c

-- What a segment with RST does.
unfoldable pub reset : TcpConnection → TcpConnection
reset c = record c {
  sender = record (c.sender) { stream = set_error c.sender.stream };
  receiver = record (c.receiver) {
    reassembler = record (c.receiver.reassembler) {
      output = set_error c.receiver.reassembler.output;
    };
  };
  active = false;
}

-- The peer ended first: no lingering.
unfoldable pub stop_linger : TcpConnection → TcpConnection
stop_linger c =
    if check_inbound_ended c && not (eof c.sender.stream)
    then record c { linger_after_streams_finish = false }
    else c

unfoldable pub take_ack : TcpConnection → TcpSegment → TcpConnection
take_ack c seg =
    if seg.header.ack
    then (send_segments_out
        (record c { sender = ack_received c.sender seg.header.ackno seg.header.win })).0
    else c

-- A segment that takes sequence numbers is answered, by an empty segment if nothing else is sent.
unfoldable pub answer : TcpConnection → TcpSegment → TcpConnection
answer c seg =
    let (sent, is_sent) = send_segments_out (record c { sender = fill_window c.sender }) in
    if not (ltb 0 (length_in_sequence_space seg))
    then c
    else if is_sent
    then sent
    else (send_segments_out (record sent { sender = send_empty_segment sent.sender })).0

-- `segment_received` after the receiver took the segment.
unfoldable pub after_receiver : TcpConnection → TcpSegment → TcpConnection
after_receiver c seg = answer (take_ack (stop_linger c) seg) seg

-- `segment_received(seg)`; `none` if the reassembler does not return.
unfoldable pub segment_received : TcpConnection → TcpSegment → Option TcpConnection
segment_received c seg =
    let fresh = record c { last_tick_time = 0 } in
    if seg.header.rst
    then some (reset fresh)
    else Option.map (λ r. after_receiver (record fresh { receiver = r }) seg)
        (TcpReceiver.segment_received c.receiver seg)

-- `write(data)`: the connection, and how many bytes were accepted.
unfoldable pub write : TcpConnection → List ℕ → TcpConnection × ℕ
write c bytes =
    let (stream, result) = ByteStream.write c.sender.stream bytes in
    if length bytes == 0 then (c, 0) else (
      (send_segments_out
          (record c { sender = fill_window (record (c.sender) { stream = stream }) })).0,
      result,
    )

abbrev pub with_rst : TcpSegment → TcpSegment
with_rst seg = record seg { header = record (seg.header) { rst = true } }

-- The empty segment with RST is queued, and received by the connection itself.
unfoldable pub send_rst : TcpConnection → Option (TcpSegment × TcpSender) → Option TcpConnection
send_rst c none = none
send_rst c (some (seg, s)) =
    segment_received (record c { sender = s; segments_out = c.segments_out ++ with_rst seg ∷ [] })
      (with_rst seg)

unfoldable pub abort : TcpConnection → Option TcpConnection
abort c = send_rst c (read_a_segment (send_empty_segment c.sender))

-- The end of `tick`.
unfoldable pub check_done : TcpConnection → TcpConnection
check_done c =
    if check_inbound_ended c && check_outbound_ended c
    then record c {
      active =
          not (not c.linger_after_streams_finish || leb (10 * c.cfg.rt_timeout) c.last_tick_time);
    }
    else c

-- `tick(ms_since_last_tick)`.
unfoldable pub tick : TcpConnection → ℕ → Option TcpConnection
tick c ms =
    let (c', _) = send_segments_out (record c {
      last_tick_time = add64 c.last_tick_time ms;
      sender = TcpSender.tick c.sender ms;
    }) in
    let aborted = abort (record c' { segments_out = [] }) in
    if ltb max_retx_attempts c'.sender.consecutive_retransmissions
    then Option.map check_done aborted
    else some (check_done c')

-- `end_input_stream()`.
unfoldable pub end_input_stream : TcpConnection → TcpConnection
end_input_stream c =
    (send_segments_out (record c {
      sender = fill_window (record (c.sender) { stream = end_input c.sender.stream });
    })).0

-- `connect()`.
unfoldable pub connect : TcpConnection → TcpConnection
connect c = (send_segments_out (record c { sender = fill_window c.sender })).0

-- The destructor.
unfoldable pub destroy : TcpConnection → Option TcpConnection
destroy c = if c.active then abort c else some c
