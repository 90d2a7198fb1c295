-- ===== src/TcpConnection/Tests.antt =====
-- Runs of tcp_connection.cc, and the theorems at inputs that meet their hypotheses.
use tcp_implementation.Base.{
  ◌<◌, ◌≡◌, refl, List, [], ◌∷◌, ◌++◌, true, false, some, none, arith, length, All,
}
use tcp_implementation.WrappingIntegers.{wrap, unwrap}
use tcp_implementation.ByteStream
use tcp_implementation.StreamReassembler
use tcp_implementation.TcpSegment.{TcpSegment, default_header, length_in_sequence_space}
use tcp_implementation.TcpReceiver
use tcp_implementation.TcpReceiver.{TcpReceiver, ackno}
use tcp_implementation.TcpSender
use tcp_implementation.TcpConnection.{
  TcpConfig, TcpConnection, new, segment_received, tick, max_retx_attempts, check_inbound_ended,
  check_outbound_ended, connect, write, end_input_stream,
}
use tcp_implementation.TcpSender.Inv.{IsValid}
use tcp_implementation.TcpConnection.Reach
use tcp_implementation.TcpConnection.Reach.{Reach-sender}
use tcp_implementation.TcpConnection.Sending.{Acknowledges, segment_received_answers}
use tcp_implementation.TcpConnection.Reset.{rst_segment, IsDone, tick_gives_up, tick_revives}

abbrev cfg : TcpConfig
cfg = record { rt_timeout = 100; recv_capacity = 8; send_capacity = 8; fixed_isn = none }

abbrev listening : TcpConnection
listening = new cfg (record { raw_value = 7 })

abbrev syn_segment : TcpSegment
syn_segment = record {
  header = record default_header { seqno = record { raw_value = 41 }; syn = true };
  payload = [];
}

abbrev synchronized : TcpReceiver
synchronized = record (TcpReceiver.new 8) {
  abs_seqno = 1;
  isn = record { raw_value = 41 };
  first_segment = false;
}

-- The connection that connected, wrote 3 bytes and ended its stream.
abbrev speaking : TcpConnection
speaking = end_input_stream (write (connect listening) (1 ∷ 2 ∷ 3 ∷ [])).0

abbrev spoke : Reach.Reach cfg (record { raw_value = 7 }) 3 speaking
spoke = Reach.ends_input (Reach.writes (1 ∷ 2 ∷ 3 ∷ []) (Reach.connects Reach.start))

Reach-sender_example : IsValid speaking.sender × (speaking.sender.segments_out ≡ [])
Reach-sender_example =
    Reach-sender cfg (record { raw_value = 7 }) (omega arith) (omega arith) (omega arith) spoke

syn_received : TcpReceiver.segment_received (listening.receiver) syn_segment ≡ some synchronized
unfolding TcpReceiver.segment_received new TcpReceiver.new StreamReassembler.push_substring
    StreamReassembler.resume StreamReassembler.arrive ByteStream.remaining_capacity
    StreamReassembler.indicator TcpReceiver.stream_index unwrap StreamReassembler.append_next
    TcpReceiver.advance StreamReassembler.close ByteStream.write
syn_received = refl

segment_received_answers_example :
    (c' : TcpConnection) × (out : List TcpSegment) × (segment_received listening syn_segment
      ≡ some c')
    × (c'.segments_out ≡ listening.segments_out ++ out)
    × (0 < length out)
    × All (Acknowledges (record { raw_value = 42 })) out
unfolding new TcpReceiver.new ackno length_in_sequence_space wrap
segment_received_answers_example =
    segment_received_answers listening syn_segment synchronized (record { raw_value = 42 }) refl
      syn_received refl (omega arith)

-- A connection that sent SYN and FIN and had both acknowledged, and got a stream of nothing.
abbrev finished : TcpConnection
finished = record {
  cfg = cfg;
  receiver = record {
    reassembler = record {
      output = record {
        error = false;
        input_ended = true;
        capacity = 8;
        buffer_size = 0;
        bytes_written = 0;
        bytes_read = 0;
        stream = [];
      };
      capacity = 8;
      next_assembling_index = 0;
      smallest_temporty_index = 0;
      unassembled_bytes = 0;
      storage = [];
    };
    capacity = 8;
    abs_seqno = 2;
    isn = record { raw_value = 41 };
    first_segment = false;
  };
  sender = record {
    isn = record { raw_value = 7 };
    segments_out = [];
    outstanding_segments = [];
    initial_retransmission_timeout = 100;
    applying_retransmission_timeout = 100;
    last_tick_time = 0;
    timing_begins = false;
    consecutive_retransmissions = 0;
    stream = record {
      error = false;
      input_ended = true;
      capacity = 8;
      buffer_size = 0;
      bytes_written = 0;
      bytes_read = 0;
      stream = [];
    };
    next_seqno = 2;
    confirmed_seqno = 2;
    fin_sent = true;
    bytes_in_flight = 0;
    receiver_window_size = 8;
  };
  segments_out = [];
  linger_after_streams_finish = true;
  active = true;
  last_tick_time = 400;
}

finished-IsDone : IsDone finished
unfolding check_inbound_ended check_outbound_ended ByteStream.eof
finished-IsDone = record {
  inbound = refl;
  outbound = refl;
  idle = refl;
  unqueued = refl;
  few = omega arith;
}

abbrev rst_received : TcpSegment
rst_received = record { header = record default_header { rst = true }; payload = [] }

tick_revives_example :
    (c' c'' : TcpConnection) × (segment_received finished rst_received ≡ some c')
    × (c'.active ≡ false)
    × (tick c' 10 ≡ some c'')
    × (c''.active ≡ true)
tick_revives_example =
    tick_revives finished rst_received 10 finished-IsDone refl refl (omega arith) (omega arith)

-- SYN was sent again eight times, and its timer is about to run out.
abbrev unanswered : TcpConnection
unanswered = record finished {
  sender = record (finished.sender) {
    outstanding_segments = syn_segment ∷ [];
    timing_begins = true;
    consecutive_retransmissions = 8;
    bytes_in_flight = 1;
    next_seqno = 1;
    confirmed_seqno = 0;
    fin_sent = false;
  };
}

unanswered-many :
    max_retx_attempts < (TcpSender.tick unanswered.sender 100).consecutive_retransmissions
unfolding TcpSender.tick TcpSender.retransmit
unanswered-many = omega arith

unanswered-flying : 0 < (TcpSender.tick unanswered.sender 100).bytes_in_flight
unfolding TcpSender.tick TcpSender.retransmit
unanswered-flying = omega arith

tick_gives_up_example :
    (c' : TcpConnection) × (tick unanswered 100 ≡ some c')
    × (c'.segments_out ≡ rst_segment (TcpSender.tick unanswered.sender 100) ∷ [])
    × (c'.sender.stream.error ≡ true)
    × (c'.receiver.reassembler.output.error ≡ true)
    × (c'.active ≡ false)
tick_gives_up_example = tick_gives_up unanswered 100 unanswered-many unanswered-flying

-- Two segments wait in the sender.
abbrev queued : TcpConnection
queued = record finished {
  sender = record (finished.sender) { segments_out = syn_segment ∷ rst_received ∷ [] };
}
