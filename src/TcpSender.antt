-- ===== src/TcpSender.antt =====
-- libsponge/tcp_sender.hh and .cc: outbound segments, the window, and the retransmission timer.
pub mod Inv
pub mod Round
pub mod Rounds
pub mod FillLoop
pub mod Window
pub mod AckLoop
pub mod Ack
pub mod Timer
pub mod Keeps
pub mod Reach
mod Tests
use tcp_implementation.Base.{
  ℕ, zero, suc, ◌+◌, ◌*◌, ◌%◌, Bool, true, false, ◌&&◌, ◌||◌, not, List, [], ◌∷◌, ◌++◌, Option,
  none, some, ltb, leb, ◌==◌, if◌then◌else◌, length, add64, sub64, u32_mod, u16_mod, min,
}
use tcp_implementation.WrappingIntegers.{WrappingInt32, wrap, unwrap}
use tcp_implementation.ByteStream
use tcp_implementation.ByteStream.{ByteStream, buffer_empty, eof, read}
use tcp_implementation.TcpSegment.{
  TcpHeader, TcpSegment, default_header, default_segment, length_in_sequence_space,
}

-- `TCPConfig::MAX_PAYLOAD_SIZE`.
abbrev pub max_payload_size : ℕ
max_payload_size = 1000

-- `class TCPSender`. The queues are lists, their front first.
pub record TcpSender : Type 0 where
  pub isn : WrappingInt32
  pub segments_out : List TcpSegment
  pub outstanding_segments : List TcpSegment
  pub initial_retransmission_timeout : ℕ
  pub applying_retransmission_timeout : ℕ
  pub last_tick_time : ℕ
  pub timing_begins : Bool
  pub consecutive_retransmissions : ℕ
  pub stream : ByteStream
  pub next_seqno : ℕ
  pub confirmed_seqno : ℕ
  pub fin_sent : Bool
  pub bytes_in_flight : ℕ
  pub receiver_window_size : ℕ

-- The constructor, given the initial sequence number that was fixed or drawn.
unfoldable pub new : ℕ → ℕ → WrappingInt32 → TcpSender
unfolding ByteStream.new
new capacity retx_timeout isn = record {
  isn = isn;
  segments_out = [];
  outstanding_segments = [];
  initial_retransmission_timeout = retx_timeout;
  applying_retransmission_timeout = retx_timeout;
  last_tick_time = 0;
  timing_begins = false;
  consecutive_retransmissions = 0;
  stream = ByteStream.new capacity;
  next_seqno = 0;
  confirmed_seqno = 0;
  fin_sent = false;
  bytes_in_flight = 0;
  receiver_window_size = 0;
}

abbrev pub with_seqno : TcpSegment → WrappingInt32 → TcpSegment
with_seqno seg n = record seg { header = record (seg.header) { seqno = n } }

abbrev pub with_syn : TcpSegment → TcpSegment
with_syn seg = record seg { header = record (seg.header) { syn = true } }

abbrev pub with_fin : TcpSegment → TcpSegment
with_fin seg = record seg { header = record (seg.header) { fin = true } }

-- `send_tcp_segment(tcp_segment)`.
unfoldable pub send_tcp_segment : TcpSender → TcpSegment → TcpSender
send_tcp_segment s seg =
    let sent = with_seqno seg (wrap s.next_seqno s.isn) in
    record s {
      segments_out = s.segments_out ++ sent ∷ [];
      outstanding_segments = s.outstanding_segments ++ sent ∷ [];
      next_seqno = add64 s.next_seqno (length_in_sequence_space seg);
      bytes_in_flight = add64 s.bytes_in_flight (length_in_sequence_space seg);
      timing_begins = true;
      last_tick_time = if s.timing_begins then s.last_tick_time else 0;
    }

-- `send_empty_segment()`.
unfoldable pub send_empty_segment : TcpSender → TcpSender
send_empty_segment s = record s {
  segments_out = s.segments_out ++ with_seqno default_segment (wrap s.next_seqno s.isn) ∷ [];
}

-- The window that `fill_window` counts with: an empty one is probed with one byte.
unfoldable pub receiver_logical_window_size : TcpSender → ℕ
receiver_logical_window_size s = if s.receiver_window_size == 0 then 1 else s.receiver_window_size

-- The payload size of a round, of `std::min` over three sizes.
unfoldable pub payload_size : TcpSender → ℕ → ℕ
payload_size s available = min (min s.stream.buffer_size available) max_payload_size

-- The segment of a round: the payload, and FIN if the stream ends and the window has room for it.
-- `seg` is the variable that all the rounds share.
unfoldable pub round_segment : TcpSender → TcpSegment → ℕ → TcpSegment
round_segment s seg available =
    let (b, bytes) = read s.stream (payload_size s available) in
    let filled = record seg { payload = bytes } in
    if eof b && ltb (length_in_sequence_space filled) available then with_fin filled else filled

-- One round of the loop of `fill_window`: the new sender and the variable `seg`.
unfoldable pub fill_round : TcpSender → TcpSegment → ℕ → TcpSender × TcpSegment
fill_round s seg available =
    let (b, bytes) = read s.stream (payload_size s available) in
    let filled = record seg { payload = bytes } in
    let ends = eof b && ltb (length_in_sequence_space filled) available in
    let seg' = round_segment s seg available in
    (
      send_tcp_segment (record s { stream = b; fin_sent = ends || s.fin_sent }) seg',
      with_seqno seg' (wrap s.next_seqno s.isn),
    )

-- The loop, on fuel for its rounds.
unfoldable pub fill_loop : ℕ → TcpSender → TcpSegment → ℕ → TcpSender × ℕ
fill_loop zero s seg available = (s, available)
fill_loop (suc fuel) s seg available =
    let (s', seg') = fill_round s seg available in
    let rest = fill_loop fuel s' seg' (sub64 available (length_in_sequence_space seg')) in
    if not (buffer_empty s.stream) && not (available == 0) then rest else (s, available)

-- `fill_window()`. Each round reads a byte or more, so the buffered bytes are fuel enough.
unfoldable pub fill_window : TcpSender → TcpSender
fill_window s =
    if s.fin_sent
    then s
    else if s.next_seqno == 0
    then send_tcp_segment s (with_syn default_segment)
    else if leb (add64 s.confirmed_seqno (receiver_logical_window_size s)) s.next_seqno
    then s
    else if eof s.stream
    then record (send_tcp_segment s (with_fin default_segment)) { fin_sent = true }
    else (fill_loop (length s.stream.stream) s default_segment
        (sub64 (receiver_logical_window_size s) (sub64 s.next_seqno s.confirmed_seqno))).0

-- `front_seg_outstanding_ackno()` for the front `seg`.
unfoldable pub outstanding_ackno : TcpSender → TcpSegment → ℕ
outstanding_ackno s seg =
    add64 (unwrap seg.header.seqno s.isn s.next_seqno) (length_in_sequence_space seg)

-- The first acknowledged segment restarts the timer.
unfoldable pub restart_timer : TcpSender → TcpSender
restart_timer s = record s {
  applying_retransmission_timeout = s.initial_retransmission_timeout;
  consecutive_retransmissions = 0;
  last_tick_time = 0;
}

-- The loop of `ack_received` over the outstanding segments: the sender, `ack`, and whether the
-- function returned.
unfoldable pub ack_loop : List TcpSegment → ℕ → Bool → TcpSender → TcpSender × Bool × Bool
ack_loop [] abs_ackno ack s = (s, ack, false)
ack_loop (front ∷ rest) abs_ackno ack s =
    let restarted = if ack then s else restart_timer s in
    let popped = record restarted {
      bytes_in_flight = sub64 s.bytes_in_flight (length_in_sequence_space front);
      outstanding_segments = rest;
    } in
    let more = ack_loop rest abs_ackno true popped in
    if ltb abs_ackno (outstanding_ackno s front) then (s, ack, true) else more

abbrev pub is_empty {ℓ} : {A : Type ℓ} → List A → Bool
is_empty [] = true
is_empty (x ∷ xs) = false

-- What follows the loop, unless the function returned in it.
unfoldable pub after_ack : TcpSender × Bool × Bool → TcpSender
after_ack (s, ack, returned) =
    let s' = if ack then fill_window s else s in
    if returned then s else record s' { timing_begins = not (is_empty s'.outstanding_segments) }

-- `ack_received(ackno, window_size)`.
unfoldable pub ack_received : TcpSender → WrappingInt32 → ℕ → TcpSender
ack_received s ackno window_size =
    let abs_ackno = unwrap ackno s.isn s.next_seqno in
    let confirmed = record s { confirmed_seqno = abs_ackno; receiver_window_size = window_size } in
    if ltb abs_ackno s.confirmed_seqno || ltb s.next_seqno abs_ackno
    then s
    else after_ack (ack_loop s.outstanding_segments abs_ackno false confirmed)

-- The retransmission of the oldest outstanding segment.
unfoldable pub retransmit : TcpSender → TcpSegment → TcpSender
retransmit s seg =
    let again = record s { segments_out = s.segments_out ++ seg ∷ []; last_tick_time = 0 } in
    if ltb 0 s.receiver_window_size || seg.header.syn
    then record again {
      consecutive_retransmissions = (s.consecutive_retransmissions + 1) % u16_mod;
      applying_retransmission_timeout = (s.applying_retransmission_timeout * 2) % u32_mod;
    }
    else again

unfoldable pub tick_at : TcpSender → List TcpSegment → TcpSender
tick_at s [] = s
tick_at s (front ∷ rest) =
    if leb s.applying_retransmission_timeout s.last_tick_time then retransmit s front else s

-- `tick(ms_since_last_tick)`.
unfoldable pub tick : TcpSender → ℕ → TcpSender
unfolding tick_at
tick s ms =
    if s.timing_begins
    then tick_at (record s { last_tick_time = add64 s.last_tick_time ms }) s.outstanding_segments
    else s

unfoldable pub dequeue : TcpSender → List TcpSegment → Option (TcpSegment × TcpSender)
dequeue s [] = none
dequeue s (seg ∷ rest) = some (seg, record s { segments_out = rest })

-- `read_a_segment()`: the front of the queue, which its callers know not to be empty.
unfoldable pub read_a_segment : TcpSender → Option (TcpSegment × TcpSender)
unfolding dequeue
read_a_segment s = dequeue s s.segments_out
