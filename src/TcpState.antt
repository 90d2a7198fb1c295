-- ===== src/TcpState.antt =====
-- libsponge/tcp_helpers/tcp_state.hh and .cc: the summary of a connection, and the official states.
-- The strings of the two namespaces of summaries are constructors; only the output prints them.
pub mod Official
pub mod Summary
mod Tests
use tcp_implementation.Base.{
  ℕ, ◌+◌, Bool, true, false, ◌&&◌, not, Option, none, some, ltb, ◌==◌, if◌then◌else◌, add64,
}
use tcp_implementation.ByteStream.{eof}
use tcp_implementation.TcpReceiver.{TcpReceiver, ackno}
use tcp_implementation.TcpSender.{TcpSender}
use tcp_implementation.TcpConnection.{TcpConnection}

-- `TCPReceiverStateSummary`.
pub data ReceiverSummary : Type 0 where
  error listen syn_recv fin_recv : ReceiverSummary

-- `TCPSenderStateSummary`.
pub data SenderSummary : Type 0 where
  error closed syn_sent syn_acked fin_sent fin_acked : SenderSummary

-- `TCPState::State`.
pub data State : Type 0 where
  listen syn_rcvd syn_sent established close_wait last_ack : State
  fin_wait_1 fin_wait_2 closing time_wait closed reset : State

-- `class TCPState`.
pub record TcpState : Type 0 where
  pub sender : SenderSummary
  pub receiver : ReceiverSummary
  pub active : Bool
  pub linger_after_streams_finish : Bool

-- The constructor from an official state.
abbrev pub official : State → TcpState
official listen = record {
  sender = closed;
  receiver = listen;
  active = true;
  linger_after_streams_finish = true;
}
official syn_rcvd = record {
  sender = syn_sent;
  receiver = syn_recv;
  active = true;
  linger_after_streams_finish = true;
}
official syn_sent = record {
  sender = syn_sent;
  receiver = listen;
  active = true;
  linger_after_streams_finish = true;
}
official established = record {
  sender = syn_acked;
  receiver = syn_recv;
  active = true;
  linger_after_streams_finish = true;
}
official close_wait = record {
  sender = syn_acked;
  receiver = fin_recv;
  active = true;
  linger_after_streams_finish = false;
}
official last_ack = record {
  sender = fin_sent;
  receiver = fin_recv;
  active = true;
  linger_after_streams_finish = false;
}
official closing = record {
  sender = fin_sent;
  receiver = fin_recv;
  active = true;
  linger_after_streams_finish = true;
}
official fin_wait_1 = record {
  sender = fin_sent;
  receiver = syn_recv;
  active = true;
  linger_after_streams_finish = true;
}
official fin_wait_2 = record {
  sender = fin_acked;
  receiver = syn_recv;
  active = true;
  linger_after_streams_finish = true;
}
official time_wait = record {
  sender = fin_acked;
  receiver = fin_recv;
  active = true;
  linger_after_streams_finish = true;
}
official reset = record {
  sender = error;
  receiver = error;
  active = false;
  linger_after_streams_finish = false;
}
official closed = record {
  sender = fin_acked;
  receiver = fin_recv;
  active = false;
  linger_after_streams_finish = false;
}

abbrev has_value {ℓ} : {A : Type ℓ} → Option A → Bool
has_value none = false
has_value (some a) = true

-- `state_summary(receiver)`.
unfoldable pub receiver_summary : TcpReceiver → ReceiverSummary
receiver_summary r =
    if r.reassembler.output.error
    then error
    else if not (has_value (ackno r))
    then listen
    else if r.reassembler.output.input_ended
    then fin_recv
    else syn_recv

-- `state_summary(sender)`.
unfoldable pub sender_summary : TcpSender → SenderSummary
sender_summary s =
    if s.stream.error
    then error
    else if s.next_seqno == 0
    then closed
    else if s.next_seqno == s.bytes_in_flight
    then syn_sent
    else if not (eof s.stream)
    then syn_acked
    else if ltb s.next_seqno (add64 s.stream.bytes_written 2)
    then syn_acked
    else if not (s.bytes_in_flight == 0)
    then fin_sent
    else fin_acked

-- The constructor from a sender, a receiver and the two bits.
unfoldable pub summarized : TcpSender → TcpReceiver → Bool → Bool → TcpState
summarized sender receiver active linger = record {
  sender = sender_summary sender;
  receiver = receiver_summary receiver;
  active = active;
  linger_after_streams_finish = if active then linger else false;
}

-- `TCPConnection::state()`.
unfoldable pub state : TcpConnection → TcpState
unfolding summarized
state c = summarized c.sender c.receiver c.active c.linger_after_streams_finish
