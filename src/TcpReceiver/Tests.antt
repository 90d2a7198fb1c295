-- ===== src/TcpReceiver/Tests.antt =====
-- Runs of tcp_receiver.cc, and the theorems at inputs that meet their hypotheses.
use tcp_implementation.Base.{
  ◌-◌, ℕ, ◌+◌, ◌≤◌, ◌<◌, ◌≡◌, refl, List, [], ◌∷◌, Bool, true, false, some, arith,
}
use tcp_implementation.WrappingIntegers.{WrappingInt32, wrap}
use tcp_implementation.StreamReassembler.{StreamReassembler, datagram}
use tcp_implementation.StreamReassembler.Excerpts.{Fits}
use tcp_implementation.StreamReassembler.Assemble.{Good}
use tcp_implementation.TcpSegment.{TcpSegment, default_header}
use tcp_implementation.TcpReceiver.{TcpReceiver, ackno, segment_received}
use tcp_implementation.TcpReceiver.Order.{
  IsSynced, next_wanted, segment_received_in_order, segment_received_overlap,
  segment_received_after_end,
}

abbrev text : List ℕ
text = 1 ∷ 2 ∷ 3 ∷ 4 ∷ []

-- Bytes 1 and 2 are written, byte 1 is read; 8 bytes of capacity.
abbrev two_written : StreamReassembler
two_written = record {
  output = record {
    error = false;
    input_ended = false;
    capacity = 8;
    buffer_size = 1;
    bytes_written = 2;
    bytes_read = 1;
    stream = 2 ∷ [];
  };
  capacity = 8;
  next_assembling_index = 2;
  smallest_temporty_index = 0;
  unassembled_bytes = 0;
  storage = [];
}

abbrev isn : WrappingInt32
isn = record { raw_value = 4294967295 }

abbrev receiver : TcpReceiver
receiver = record {
  reassembler = two_written;
  capacity = 8;
  abs_seqno = 3;
  isn = isn;
  first_segment = false;
}

abbrev segment : WrappingInt32 → List ℕ → Bool → TcpSegment
segment seqno bytes fin = record {
  header = record default_header { seqno = seqno; fin = fin };
  payload = bytes;
}

receiver-IsSynced : IsSynced text receiver
receiver-IsSynced = record {
  good = record {
    carried = record { valid = omega arith; within_text = omega arith; buffered = refl };
    aligned = refl;
    fits = tt;
    counted = refl;
    ended = λ e. cc;
  };
  started = refl;
  isn_fits = omega arith;
  acked = refl;
  sized = refl;
  short = omega arith;
}

last-Fits : Fits text 9 (datagram (3 ∷ 4 ∷ []) 2 true)
last-Fits = record {
  sized = refl;
  excerpt = record { inside = omega arith; agrees = refl };
  below = omega arith;
  last = λ e. omega arith;
}

overlap-Fits : Fits text 9 (datagram (2 ∷ 3 ∷ []) 1 false)
overlap-Fits = record {
  sized = refl;
  excerpt = record { inside = omega arith; agrees = refl };
  below = omega arith;
  last = λ e. cc;
}

segment_received_in_order_example :
    (r' : TcpReceiver) × (segment_received receiver (segment (wrap 3 isn) (3 ∷ 4 ∷ []) true)
      ≡ some r')
    × Good text r'.reassembler
    × (4 ≤ r'.reassembler.output.bytes_written)
    × (ackno r'
        ≡ some (wrap (next_wanted (segment (wrap 3 isn) (3 ∷ 4 ∷ []) true) r'.reassembler) isn))
segment_received_in_order_example =
    segment_received_in_order receiver (segment (wrap 3 isn) (3 ∷ 4 ∷ []) true) receiver-IsSynced
      refl (omega arith) last-Fits (omega arith) tt tt

segment_received_overlap_example :
    (r' : TcpReceiver) × (segment_received receiver (segment (wrap 2 isn) (2 ∷ 3 ∷ []) false)
      ≡ some r')
    × Good text r'.reassembler
    × (2 - 1 + 2 ≤ r'.reassembler.output.bytes_written)
    × (2 < r'.reassembler.output.bytes_written)
    × (ackno r' ≡ ackno receiver)
segment_received_overlap_example =
    segment_received_overlap receiver (segment (wrap 2 isn) (2 ∷ 3 ∷ []) false) 2 receiver-IsSynced
      refl (omega arith) (omega arith) (omega arith) (omega arith) overlap-Fits (omega arith) tt tt

-- All four bytes and the FIN are acknowledged.
abbrev finished : TcpReceiver
finished = record receiver {
  reassembler = record two_written {
    output = record {
      error = false;
      input_ended = true;
      capacity = 8;
      buffer_size = 3;
      bytes_written = 4;
      bytes_read = 1;
      stream = 2 ∷ 3 ∷ 4 ∷ [];
    };
    next_assembling_index = 4;
  };
  abs_seqno = 6;
}

segment_received_after_end_example :
    (r' : TcpReceiver) × (segment_received finished (segment (wrap 6 isn) [] false) ≡ some r')
    × (ackno finished ≡ some (wrap 6 isn))
    × (ackno r' ≡ some (wrap (6 + 1) isn))
segment_received_after_end_example =
    segment_received_after_end finished (segment (wrap 6 isn) [] false) refl (omega arith)
      (omega arith) refl (omega arith) refl refl refl

abbrev syn_segment : TcpSegment
syn_segment = record { header = record default_header { seqno = isn; syn = true }; payload = [] }
