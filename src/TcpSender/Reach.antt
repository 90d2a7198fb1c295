-- ===== src/TcpSender/Reach.antt =====
-- The senders that any sequence of the operations of tcp_sender.cc, and of writes to its stream,
-- leads to.
use mathlib.Core.Path.{subst}
use tcp_implementation.Base.{
  some, ℕ, ◌+◌, ◌^◌, ◌<◌, ◌≡◌, refl, sym, List, [], ◌∷◌, arith, u64_mod, u32_mod, u16_mod, length,
}
use tcp_implementation.WrappingIntegers.{WrappingInt32}
use tcp_implementation.TcpSegment.{TcpSegment}
use tcp_implementation.TcpSender.{TcpSender, new, send_empty_segment, fill_window}
use tcp_implementation.TcpSender.Inv.{IsValid}
use tcp_implementation.TcpSender.{tick, ack_received, read_a_segment, dequeue}
use tcp_implementation.TcpSender.Window.{fill_window-Fills}
use tcp_implementation.TcpSender.Ack.{ack_received-IsValid, ack_received-written}
use tcp_implementation.ByteStream.{write, end_input}
use tcp_implementation.TcpSender.Keeps.{
  Invariant, next_seqno_le, new-Invariant, timed_as-Invariant, stream-IsValid, write-Invariant,
  end_input-IsValid, tick-Invariant,
}

-- `Reach offered s`: the operations lead to `s`, and `offered` bytes were passed to `write`.
pub data Reach (capacity retx_timeout : ℕ) (isn : WrappingInt32) : ℕ → TcpSender → Type 0 where
  start : Reach capacity retx_timeout isn 0 (new capacity retx_timeout isn)
  writes :
      {n : ℕ} {s : TcpSender} (bytes : List ℕ)
      → Reach capacity retx_timeout isn n s
      → Reach capacity retx_timeout isn
          (n + length bytes)
          (record s { stream = (write s.stream bytes).0 })
  ends_input :
      {n : ℕ} {s : TcpSender}
      → Reach capacity retx_timeout isn n s
      → Reach capacity retx_timeout isn n (record s { stream = end_input s.stream })
  fills :
      {n : ℕ} {s : TcpSender}
      → Reach capacity retx_timeout isn n s
      → Reach capacity retx_timeout isn n (fill_window s)
  receives :
      {n : ℕ} {s : TcpSender} (ackno : WrappingInt32) (window_size : ℕ)
      → window_size < u16_mod
      → Reach capacity retx_timeout isn n s
      → Reach capacity retx_timeout isn n (ack_received s ackno window_size)
  ticked :
      {n : ℕ} {s : TcpSender} (ms : ℕ)
      → Reach capacity retx_timeout isn n s
      → Reach capacity retx_timeout isn n (tick s ms)
  sends_empty :
      {n : ℕ} {s : TcpSender}
      → Reach capacity retx_timeout isn n s
      → Reach capacity retx_timeout isn n (send_empty_segment s)
  takes :
      {n : ℕ} {s s' : TcpSender} {seg : TcpSegment}
      → read_a_segment s ≡ some (seg, s')
      → Reach capacity retx_timeout isn n s
      → Reach capacity retx_timeout isn n s'

dequeue_lem :
    (s s' : TcpSender) (seg : TcpSegment) (segs : List TcpSegment)
    → dequeue s segs ≡ some (seg, s')
    → (out : List TcpSegment) × (s' ≡ record s { segments_out = out })
unfolding dequeue
dequeue_lem s s' seg [] e = absurd (ground (arith, e))
dequeue_lem s s' seg (x ∷ rest) e = (rest, ground (arith, e))

pub read_a_segment_lem :
    (s s' : TcpSender) (seg : TcpSegment)
    → read_a_segment s ≡ some (seg, s')
    → (out : List TcpSegment) × (s' ≡ record s { segments_out = out })
unfolding read_a_segment
read_a_segment_lem s s' seg e = dequeue_lem s s' seg s.segments_out e

pub ack_received-Invariant :
    {n : ℕ} (s : TcpSender) (ackno : WrappingInt32) (window_size : ℕ)
    → window_size < u16_mod
    → n + 2 < 2 ^ 63
    → Invariant n s
    → Invariant n (ack_received s ackno window_size)
ack_received-Invariant s ackno window_size w h i =
    let bound = next_seqno_le i in
    (
      ack_received-IsValid s ackno window_size i.0 w (omega arith),
      omega (arith, ack_received-written s ackno window_size i.0 w (omega arith), i.1),
    )

pub fill_window-Invariant :
    {n : ℕ} (s : TcpSender) → n + 2 < 2 ^ 63 → Invariant n s → Invariant n (fill_window s)
fill_window-Invariant s h i =
    let f = fill_window-Fills s i.0 (omega (arith, next_seqno_le i, i.0.in_flight.confirmed_le)) in
    (f.valid, omega (arith, f.written, i.1))

Reach-Invariant :
    {capacity retx_timeout : ℕ} {isn : WrappingInt32} {n : ℕ} {s : TcpSender}
    → capacity < u64_mod
    → isn.raw_value < u32_mod
    → n + 2 < 2 ^ 63
    → Reach capacity retx_timeout isn n s
    → Invariant n s
unfolding send_empty_segment
Reach-Invariant {capacity} {retx_timeout} {isn} c w h start =
    new-Invariant capacity retx_timeout isn c w
Reach-Invariant c w h (writes {n} {s} bytes r) =
    write-Invariant s bytes (Reach-Invariant c w (omega arith) r) (omega arith)
Reach-Invariant c w h (ends_input {n} {s} r) =
    let i = Reach-Invariant c w h r in
    (stream-IsValid s (end_input s.stream) (end_input-IsValid s.stream i.0.streamed) refl i.0, i.1)
Reach-Invariant c w h (fills {n} {s} r) = fill_window-Invariant s h (Reach-Invariant c w h r)
Reach-Invariant c w h (receives {n} {s} ackno window_size win r) =
    ack_received-Invariant s ackno window_size win h (Reach-Invariant c w h r)
Reach-Invariant c w h (ticked {n} {s} ms r) = tick-Invariant s ms (Reach-Invariant c w h r)
Reach-Invariant c w h (sends_empty {n} {s} r) =
    (let i = Reach-Invariant c w h r in
      timed_as-Invariant s (send_empty_segment s).segments_out s.last_tick_time
        s.consecutive_retransmissions s.applying_retransmission_timeout i)
Reach-Invariant c w h (takes {n} {s} {s'} {seg} e r) =
    (let i = Reach-Invariant c w h r in
      let (out, same) = read_a_segment_lem s s' seg e in
      subst (λ t. Invariant n t) (sym same)
        (timed_as-Invariant s out s.last_tick_time s.consecutive_retransmissions
          s.applying_retransmission_timeout i))

-- In every sender that the operations lead to, from a new one on: the outstanding segments are
-- what `bytes_in_flight` counts, are numbered one after another up to the next number, and the
-- oldest is not acknowledged whole; all numbers are within 65535 of the acknowledged one; the next
-- number counts SYN, the bytes read from the stream, and FIN; and the timer is stopped only if
-- nothing is outstanding. The capacity and the initial number fit their words, and the writer
-- offers less than 2^63 - 2 bytes in all.
pub Reach-IsValid :
    {capacity retx_timeout : ℕ} {isn : WrappingInt32} {n : ℕ} {s : TcpSender}
    → capacity < u64_mod
    → isn.raw_value < u32_mod
    → n + 2 < 2 ^ 63
    → Reach capacity retx_timeout isn n s
    → IsValid s
Reach-IsValid c w h r = (Reach-Invariant c w h r).0
