-- ===== src/TcpSender/Tests.antt =====
-- Runs of tcp_sender.cc, and the theorems at inputs that meet their hypotheses.
use tcp_implementation.Base.{ℕ, ◌<◌, ◌≡◌, inl, inr, refl, List, [], ◌∷◌, true, false, arith}
use tcp_implementation.WrappingIntegers.{WrappingInt32, wrap, unwrap}
use tcp_implementation.ByteStream.{ByteStream}
use tcp_implementation.ByteStream
use tcp_implementation.TcpSegment.{TcpSegment, default_header, length_in_sequence_space}
use tcp_implementation.TcpSender.{
  TcpSender, new, send_tcp_segment, fill_window, fill_loop, ack_received, tick,
  receiver_logical_window_size, after_ack, ack_loop, outstanding_ackno, restart_timer, fill_round,
  payload_size, round_segment,
}
use tcp_implementation.TcpSender.Inv.{IsValid, occupied}
use tcp_implementation.TcpSender.AckLoop.{unacked}
use tcp_implementation.TcpSender.Ack.{ack_received_partial}
use tcp_implementation.TcpSender.Timer.{timeouts, backed_off, timeouts_back_off}

abbrev isn : WrappingInt32
isn = record { raw_value = 4294967294 }

abbrev data_segment : ℕ → List ℕ → TcpSegment
data_segment raw bytes = record {
  header = record default_header { seqno = record { raw_value = raw } };
  payload = bytes;
}

-- SYN is acknowledged, and two segments are in flight: bytes 7 and 8 at number 1, and 9 at 3.
abbrev sender : ℕ → TcpSender
sender window = record {
  isn = isn;
  segments_out = [];
  outstanding_segments = data_segment 4294967295 (7 ∷ 8 ∷ []) ∷ data_segment 1 (9 ∷ []) ∷ [];
  initial_retransmission_timeout = 100;
  applying_retransmission_timeout = 100;
  last_tick_time = 30;
  timing_begins = true;
  consecutive_retransmissions = 0;
  stream = record {
    error = false;
    input_ended = true;
    capacity = 8;
    buffer_size = 2;
    bytes_written = 5;
    bytes_read = 3;
    stream = 10 ∷ 11 ∷ [];
  };
  next_seqno = 4;
  confirmed_seqno = 1;
  fin_sent = false;
  bytes_in_flight = 3;
  receiver_window_size = window;
}

sender-IsValid : (window : ℕ) → window < 65536 → IsValid (sender window)
unfolding wrap length_in_sequence_space
sender-IsValid window h = record {
  in_flight = record {
    counted = refl;
    counted_le = omega arith;
    chained = (refl, (refl, tt));
    small = (omega arith, (omega arith, tt));
    pending = omega arith;
    based = omega arith;
    confirmed_le = omega arith;
    windowed = omega arith;
    window_fits = omega arith;
    isn_fits = omega arith;
    timed = λ e. ground (arith, e);
  };
  streamed = omega arith;
  accounted = inr refl;
}

ack_received_partial_example :
    let s' = ack_received (sender 10) (wrap 3 isn) 20 in
    (s'.outstanding_segments ≡ unacked 3 1 (sender 10).outstanding_segments)
    × (s'.bytes_in_flight ≡ occupied s'.outstanding_segments)
    × (s'.confirmed_seqno ≡ 3)
    × (s'.receiver_window_size ≡ 20)
    × (s'.next_seqno ≡ 4)
    × (s'.segments_out ≡ [])
ack_received_partial_example =
    ack_received_partial (sender 10) 3 20 (sender-IsValid 10 (omega arith)) (omega arith)
      (omega arith) (omega arith)

timeouts_back_off_example :
    timeouts 3 (sender 10) ≡ backed_off 3 (sender 10) (data_segment 4294967295 (7 ∷ 8 ∷ []))
timeouts_back_off_example =
    timeouts_back_off 2 (sender 10) (data_segment 4294967295 (7 ∷ 8 ∷ []))
      (data_segment 1 (9 ∷ []) ∷ []) refl refl (inl (omega arith)) (omega arith) (omega arith)
      (omega arith)

-- The sender that wrote 3 bytes, sent SYN, got it acknowledged with a window of 2, and sent more.
abbrev sends_two : TcpSender
sends_two =
    let begun : TcpSender = new 8 100 isn in
    let written = record begun { stream = (ByteStream.write begun.stream (1 ∷ 2 ∷ 3 ∷ [])).0 } in
    tick (fill_window (ack_received (fill_window written) (record { raw_value = 4294967295 }) 2)) 50

-- SYN is sent, then in the window of 2 two bytes.
sends_in_window :
    sends_two.segments_out
    ≡ record { header = record default_header { seqno = isn; syn = true }; payload = [] }
      ∷ data_segment 4294967295 (1 ∷ 2 ∷ [])
      ∷ []
unfolding new fill_window ack_received tick ByteStream.new ByteStream.write unwrap send_tcp_segment
    length_in_sequence_space after_ack ack_loop outstanding_ackno restart_timer
    receiver_logical_window_size ByteStream.eof ByteStream.write_loop fill_loop fill_round
    ByteStream.read payload_size round_segment
sends_in_window = refl
