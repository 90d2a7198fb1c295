-- ===== src/TcpState/Tests.antt =====
-- The theorems on tcp_state.cc at inputs that meet their hypotheses.
use tcp_implementation.Base.{◌≡◌, inr, refl, [], none, some, true, false, arith}
use tcp_implementation.WrappingIntegers.{WrappingInt32}
use tcp_implementation.TcpSegment.{TcpSegment, default_header}
use tcp_implementation.TcpSender.{TcpSender}
use tcp_implementation.TcpSender.Inv.{IsValid}
use tcp_implementation.TcpConnection.{TcpConfig, TcpConnection, new, segment_received}
use tcp_implementation.TcpState
use tcp_implementation.TcpState.{official, state, sender_summary, syn_acked, fin_sent, fin_acked}
use tcp_implementation.TcpState.Summary.{segment_received-reset}

-- SYN, one byte and FIN were sent and acknowledged.
abbrev sender : TcpSender
sender = record {
  isn = record { raw_value = 7 };
  segments_out = [];
  outstanding_segments = [];
  initial_retransmission_timeout = 100;
  applying_retransmission_timeout = 100;
  last_tick_time = 0;
  timing_begins = false;
  consecutive_retransmissions = 0;
  stream = record {
    error = false;
    input_ended = true;
    capacity = 8;
    buffer_size = 0;
    bytes_written = 1;
    bytes_read = 1;
    stream = [];
  };
  next_seqno = 3;
  confirmed_seqno = 3;
  fin_sent = true;
  bytes_in_flight = 0;
  receiver_window_size = 8;
}

sender-IsValid : IsValid sender
sender-IsValid = record {
  in_flight = record {
    counted = refl;
    counted_le = omega arith;
    chained = tt;
    small = tt;
    pending = tt;
    based = omega arith;
    confirmed_le = omega arith;
    windowed = omega arith;
    window_fits = omega arith;
    isn_fits = omega arith;
    timed = λ e. refl;
  };
  streamed = omega arith;
  accounted = inr refl;
}

abbrev cfg : TcpConfig
cfg = record { rt_timeout = 100; recv_capacity = 8; send_capacity = 8; fixed_isn = none }

abbrev isn : WrappingInt32
isn = record { raw_value = 7 }

abbrev rst_received : TcpSegment
rst_received = record { header = record default_header { rst = true }; payload = [] }

segment_received-reset_example :
    (c' : TcpConnection) × (segment_received (new cfg isn) rst_received ≡ some c')
    × (state c' ≡ official TcpState.reset)
    × (c'.segments_out ≡ (new cfg isn).segments_out)
segment_received-reset_example = segment_received-reset (new cfg isn) rst_received refl
