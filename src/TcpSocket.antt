-- ===== src/TcpSocket.antt =====
-- libsponge/tcp_helpers/tcp_sponge_socket.hh and .cc: the four rules of `_initialize_TCP` between the
-- application, a TCP connection and an adapter. What the devices give is an argument; a callback
-- gives `none` where it throws or blocks.
pub mod Rules
mod Tests
use tcp_implementation.Base.{
  ℕ, Bool, true, false, not, ◌&&◌, ◌||◌, List, [], ◌∷◌, ◌++◌, Option, none, some, ltb, ◌==◌,
  if◌then◌else◌, ◌>>=◌, length, min,
}
use tcp_implementation.WrappingIntegers.{WrappingInt32}
use tcp_implementation.ByteStream
use tcp_implementation.ByteStream.{
  ByteStream, remaining_capacity, peek_output, pop_output, buffer_empty, eof,
}
use tcp_implementation.TcpSegment.{TcpSegment}
use tcp_implementation.TcpReceiver.{TcpReceiver}
use tcp_implementation.TcpConnection
use tcp_implementation.TcpConnection.{TcpConfig, TcpConnection, end_input_stream}
use tcp_implementation.FileDescriptor
use tcp_implementation.FileDescriptor.{FileDescriptor, register_write}
use tcp_implementation.StreamCopy.{done_some}
use tcp_implementation.Adapter.{AdapterOps}

-- `class TCPSpongeSocket` with its connection initialized.
pub record TcpSocket (A : Type 0) : Type 0 where
  pub thread_data : FileDescriptor
  pub datagram_adapter : A
  pub tcp : TcpConnection
  pub outbound_shutdown : Bool
  pub inbound_shutdown : Bool
  pub fully_acked : Bool

-- `inbound_stream()` of the connection.
abbrev pub inbound_stream : TcpConnection → ByteStream
inbound_stream c = c.receiver.reassembler.output

-- `remaining_outbound_capacity()` of the connection.
abbrev pub remaining_outbound_capacity : TcpConnection → ℕ
remaining_outbound_capacity c = remaining_capacity c.sender.stream

abbrev pub with_inbound : TcpConnection → ByteStream → TcpConnection
with_inbound c b = record c {
  receiver = record (c.receiver) { reassembler = record (c.receiver.reassembler) { output = b } };
}

module _ {A Input Output : Type 0} (ops : AdapterOps A Input Output) where
  -- Whether all that was sent is acknowledged, which is printed once.
  abbrev note_acked : TcpSocket A → TcpSocket A
  note_acked s =
      if s.thread_data.eof && (s.tcp.sender.bytes_in_flight == 0) && not s.fully_acked
      then record s { fully_acked = true }
      else s

  abbrev give : TcpConnection → Option TcpSegment → Option TcpConnection
  give c none = some c
  give c (some seg) = TcpConnection.segment_received c seg

  -- Rule 1: from the adapter into the connection.
  unfoldable pub receive : TcpSocket A → Input → Option (TcpSocket A)
  receive s input = do
    let taken = ops.read s.datagram_adapter input
    c ← give s.tcp taken.1
    some (note_acked (record s { datagram_adapter = taken.0; tcp = c }))

  abbrev pub receive_interest : TcpSocket A → Bool
  receive_interest s = s.tcp.active

  -- Rule 2: from the application into the outbound stream.
  unfoldable pub send : TcpSocket A → Option (List ℕ) → Option (TcpSocket A)
  send s result = do
    r ← FileDescriptor.read s.thread_data (remaining_outbound_capacity s.tcp) result
    let written = TcpConnection.write s.tcp r.1
    (if not (written.1 == length r.1)
        then none
        else some (
            if r.0.eof
            then record s {
              thread_data = r.0;
              tcp = end_input_stream written.0;
              outbound_shutdown = true;
            }
            else record s { thread_data = r.0; tcp = written.0 }))

  unfoldable pub send_interest : TcpSocket A → Bool
  send_interest s =
      s.tcp.active && not s.outbound_shutdown && ltb 0 (remaining_outbound_capacity s.tcp)

  -- What rule 2 does when it is cancelled.
  unfoldable pub send_cancel : TcpSocket A → TcpSocket A
  send_cancel s = record s { tcp = end_input_stream s.tcp; outbound_shutdown = true }

  -- Rule 3: from the inbound stream to the application. `shutdown` counts as a write.
  unfoldable pub deliver : TcpSocket A → List (Option ℕ) → Option (TcpSocket A)
  deliver s results = do
    let inbound = inbound_stream s.tcp
    let amount_to_write = min 65536 inbound.buffer_size
    w ←
        done_some
          (FileDescriptor.write s.thread_data (peek_output inbound amount_to_write) false results)
    let left = pop_output inbound w.1
    some (
        if eof left || left.error
        then record s {
          thread_data = register_write w.0;
          tcp = with_inbound s.tcp left;
          inbound_shutdown = true;
        }
        else record s { thread_data = w.0; tcp = with_inbound s.tcp left })

  unfoldable pub deliver_interest : TcpSocket A → Bool
  deliver_interest s =
      not (buffer_empty (inbound_stream s.tcp))
      || ((eof (inbound_stream s.tcp) || (inbound_stream s.tcp).error) && not s.inbound_shutdown)

  -- The loop of rule 4 over the segments that wait: the adapter, and what it gives the device.
  unfoldable pub transmit_loop : List TcpSegment → A → Option (A × List Output)
  transmit_loop [] a = some (a, [])
  transmit_loop (seg ∷ rest) a = do
    w ← ops.write a seg
    more ← transmit_loop rest w.0
    some (more.0, w.2 ++ more.1)

  -- Rule 4: from the connection to the adapter.
  unfoldable pub transmit : TcpSocket A → Option (TcpSocket A × List Output)
  transmit s = do
    sent ← transmit_loop s.tcp.segments_out s.datagram_adapter
    some
        (record s { datagram_adapter = sent.0; tcp = record (s.tcp) { segments_out = [] } }, sent.1)

  abbrev pub transmit_interest : TcpSocket A → Bool
  transmit_interest s = not (length s.tcp.segments_out == 0)
