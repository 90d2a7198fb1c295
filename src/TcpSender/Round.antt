-- ===== src/TcpSender/Round.antt =====
-- One round of the loop in `fill_window` of tcp_sender.cc: what it reads and what it sends.
use tcp_implementation.Base.{
  ℕ, ◌+◌, ◌≤◌, ◌<◌, ◌≡◌, refl, ap, ◌∙◌, Bool, true, false, ◌&&◌, ◌||◌, arith, u32_mod, length,
  if◌then◌else◌, ltb, ◌==◌, min, Bool-cases, inl, inr, length-take, take, length-drop,
}
use tcp_implementation.ByteStream.{ByteStream, read, eof, buffer_empty}
use tcp_implementation.ByteStream.Inv
use tcp_implementation.ByteStream.Inv.{advanced, advanced-IsValid, read_lem, read-IsValid}
use tcp_implementation.TcpSegment.{TcpSegment, length_in_sequence_space}
use tcp_implementation.TcpSender.{
  TcpSender, send_tcp_segment, with_fin, payload_size, round_segment, fill_round,
}
use tcp_implementation.TcpSender.Inv.{bit, numbered}

-- Whether the round of `available` sends FIN.
abbrev pub ends : TcpSender → ℕ → Bool
ends s available =
    s.stream.input_ended
    && length s.stream.stream == payload_size s available
    && ltb (payload_size s available) available

-- The stream after a round's read.
abbrev pub read_stream : TcpSender → ℕ → ByteStream
read_stream s available = advanced s.stream (payload_size s available)

-- The segment of a round.
abbrev pub filled : TcpSender → TcpSegment → ℕ → TcpSegment
filled s seg available =
    let bytes = record seg { payload = take (payload_size s available) s.stream.stream } in
    if ends s available then with_fin bytes else bytes

eof-advanced :
    (b : ByteStream) (k : ℕ)
    → k ≤ length b.stream
    → eof (advanced b k) ≡ (b.input_ended && length b.stream == k)
unfolding eof buffer_empty
eof-advanced b k h = ground (arith, length-drop k b.stream)

pub payload_size_le :
    (s : TcpSender) (available : ℕ)
    → (payload_size s available ≤ s.stream.buffer_size)
      × (payload_size s available ≤ available)
      × (payload_size s available ≤ 1000)
unfolding payload_size
payload_size_le s available = (omega arith, omega arith, omega arith)

read_round :
    (s : TcpSender) (available : ℕ)
    → Inv.IsValid s.stream
    → read s.stream (payload_size s available)
      ≡ (read_stream s available, take (payload_size s available) s.stream.stream)
read_round s available v =
    let k = payload_size s available in
    let e : min k s.stream.buffer_size ≡ k = omega (arith, payload_size_le s available) in
    read_lem k v ∙ ap (λ n. (advanced s.stream n, take k s.stream.stream)) e

length_bytes :
    (seg : TcpSegment)
    → seg.header.syn ≡ false
    → length seg.payload < u32_mod
    → length_in_sequence_space seg ≡ length seg.payload + bit seg.header.fin
unfolding length_in_sequence_space
length_bytes seg e h = ground arith

length-take_payload :
    (s : TcpSender) (available : ℕ)
    → Inv.IsValid s.stream
    → length (take (payload_size s available) s.stream.stream) ≡ payload_size s available
length-take_payload s available v = omega (
  arith,
  length-take (payload_size s available) s.stream.stream,
  payload_size_le s available,
  v.counted,
)

-- `filled` before its FIN.
abbrev pub bare : TcpSender → TcpSegment → ℕ → TcpSegment
bare s seg available = record seg { payload = take (payload_size s available) s.stream.stream }

length-bare :
    (s : TcpSender) (seg : TcpSegment) (available : ℕ)
    → Inv.IsValid s.stream
    → seg.header.syn ≡ false
    → seg.header.fin ≡ false
    → length_in_sequence_space (bare s seg available) ≡ payload_size s available
length-bare s seg available v unsyn unfin =
    let k = length-take_payload s available v in
    length_bytes (bare s seg available) unsyn (omega (arith, k, payload_size_le s available))
    ∙ ground (arith, k, unfin)

ends_lem :
    (s : TcpSender) (seg : TcpSegment) (available : ℕ)
    → Inv.IsValid s.stream
    → seg.header.syn ≡ false
    → seg.header.fin ≡ false
    → (eof (read_stream s available)
        && ltb (length_in_sequence_space (bare s seg available)) available)
      ≡ ends s available
ends_lem s seg available v unsyn unfin = rw (length-bare s seg available v unsyn unfin) (
    rw
      (eof-advanced s.stream (payload_size s available)
        (omega (arith, payload_size_le s available, v.counted)))
      (ground arith))

round_segment_lem :
    (s : TcpSender) (seg : TcpSegment) (available : ℕ)
    → Inv.IsValid s.stream
    → seg.header.syn ≡ false
    → seg.header.fin ≡ false
    → round_segment s seg available ≡ filled s seg available
unfolding round_segment
round_segment_lem s seg available v unsyn unfin =
    rw (read_round s available v) (rw (ends_lem s seg available v unsyn unfin) refl)

-- The sender of a round, before it sends.
abbrev pub round_sender : TcpSender → ℕ → TcpSender
round_sender s available = record s {
  stream = read_stream s available;
  fin_sent = ends s available || s.fin_sent;
}

pub fill_round_lem :
    (s : TcpSender) (seg : TcpSegment) (available : ℕ)
    → Inv.IsValid s.stream
    → seg.header.syn ≡ false
    → seg.header.fin ≡ false
    → fill_round s seg available ≡ (
      send_tcp_segment (round_sender s available) (filled s seg available),
      numbered s (filled s seg available),
    )
unfolding fill_round
fill_round_lem s seg available v unsyn unfin =
    rw (round_segment_lem s seg available v unsyn unfin)
      (rw (read_round s available v) (rw (ends_lem s seg available v unsyn unfin) refl))

length-finished :
    (c : Bool) (seg : TcpSegment)
    → seg.header.syn ≡ false
    → seg.header.fin ≡ false
    → length seg.payload < u32_mod
    → length_in_sequence_space (if c then with_fin seg else seg) ≡ length seg.payload + bit c
unfolding length_in_sequence_space
length-finished true seg unsyn unfin h = ground arith
length-finished false seg unsyn unfin h = ground arith

pub bit-ends_le :
    (s : TcpSender) (available : ℕ) → payload_size s available + bit (ends s available) ≤ available
bit-ends_le s available = elim (Bool-cases (ltb (payload_size s available) available)) [
  | inl e ↦ ground (arith, e)
  | inr e ↦ ground (arith, e, payload_size_le s available)
]

-- What a round sends: its payload and FIN.
pub length-filled :
    (s : TcpSender) (seg : TcpSegment) (available : ℕ)
    → Inv.IsValid s.stream
    → seg.header.syn ≡ false
    → seg.header.fin ≡ false
    → length_in_sequence_space (filled s seg available)
      ≡ payload_size s available + bit (ends s available)
length-filled s seg available v unsyn unfin =
    let k = length-take_payload s available v in
    length-finished (ends s available) (bare s seg available) unsyn unfin
      (omega (arith, k, payload_size_le s available))
    ∙ ap (λ n. n + bit (ends s available)) k
