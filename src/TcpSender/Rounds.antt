-- ===== src/TcpSender/Rounds.antt =====
-- The rounds of the loop in `fill_window` of tcp_sender.cc keep the invariant and stay in the room.
use tcp_implementation.Base.{
  ℕ, ◌+◌, ◌≤◌, ◌<◌, ◌≡◌, refl, sym, ◌∙◌, List, [], Bool, true, false, arith, u64_mod, length, min,
  sub64, inl, inr, length-drop, drop_all,
}
use tcp_implementation.ByteStream.Inv
use tcp_implementation.ByteStream.Inv.{advanced, advanced-IsValid, read_lem, read-IsValid}
use tcp_implementation.TcpSegment.{TcpSegment, length_in_sequence_space}
use tcp_implementation.TcpSender.{TcpSender, send_tcp_segment, payload_size, fill_round}
use tcp_implementation.TcpSender.Inv.{
  bit_le, InFlight, Accounted, IsValid, send_tcp_segment-InFlight, length-numbered,
}
use tcp_implementation.TcpSender.Round.{
  bit-ends_le, ends, fill_round_lem, filled, length-filled, payload_size_le, read_stream,
  round_sender,
}

-- Between two rounds: the room that is left reaches to `limit`, and FIN was sent at the end only.
pub record Filling (limit : ℕ) (s : TcpSender) (seg : TcpSegment) (available : ℕ) : Type 0 where
  pub valid : IsValid s
  pub begun : 0 < s.next_seqno
  pub unsyn : seg.header.syn ≡ false
  pub finished : seg.header.fin ≡ true → s.stream.stream ≡ []
  pub fin_last : s.fin_sent ≡ true → s.stream.stream ≡ []
  pub room : s.next_seqno + available ≡ limit
  pub limited : limit ≤ s.confirmed_seqno + 65535
  pub limit_fits : limit < u64_mod

unfinished : (b : Bool) (xs : List ℕ) → (b ≡ true → xs ≡ []) → 0 < length xs → b ≡ false
unfinished true xs f h = absurd (ground (arith, f refl))
unfinished false xs f h = refl

-- The stream and the FIN of a round keep the segments in flight.
round_sender-InFlight :
    (s : TcpSender) (available : ℕ) → InFlight s → InFlight (round_sender s available)
round_sender-InFlight s available v = record {
  counted = v.counted;
  counted_le = v.counted_le;
  chained = v.chained;
  small = v.small;
  pending = v.pending;
  based = v.based;
  confirmed_le = v.confirmed_le;
  windowed = v.windowed;
  window_fits = v.window_fits;
  isn_fits = v.isn_fits;
  timed = v.timed;
}

payload_size-pos :
    (s : TcpSender) (available : ℕ)
    → Inv.IsValid s.stream
    → 0 < length s.stream.stream
    → 0 < available
    → 0 < payload_size s available
unfolding payload_size
payload_size-pos s available v h pos = omega (arith, v.counted)

round-InFlight :
    {limit : ℕ} (s : TcpSender) (seg : TcpSegment) (available : ℕ)
    → Filling limit s seg available
    → 0 < length s.stream.stream
    → 0 < available
    → InFlight (send_tcp_segment (round_sender s available) (filled s seg available))
round-InFlight s seg available f h pos =
    let unfin = unfinished seg.header.fin s.stream.stream f.finished h in
    let len = length-filled s seg available f.valid.streamed f.unsyn unfin in
    let le = bit-ends_le s available in
    send_tcp_segment-InFlight (round_sender s available) (filled s seg available)
      (round_sender-InFlight s available f.valid.in_flight)
      (omega (arith, len, payload_size_le s available, bit_le (ends s available)))
      (omega (arith, len, payload_size-pos s available f.valid.streamed h pos))
      (omega (arith, len, le, f.room, f.limited)) (omega (arith, len, le, f.room, f.limit_fits))

ends-empty :
    (s : TcpSender) (available : ℕ)
    → ends s available ≡ true
    → length s.stream.stream ≡ payload_size s available
ends-empty s available e = ground (arith, e)

round-empty :
    (s : TcpSender) (available : ℕ)
    → ends s available ≡ true
    → (read_stream s available).stream ≡ []
round-empty s available e =
    drop_all (payload_size s available) s.stream.stream (ends-empty s available e)

filled-fin :
    (s : TcpSender) (seg : TcpSegment) (available : ℕ)
    → seg.header.fin ≡ false
    → (filled s seg available).header.fin ≡ ends s available
filled-fin s seg available e = ground (arith, e)

filled-syn :
    (s : TcpSender) (seg : TcpSegment) (available : ℕ)
    → (filled s seg available).header.syn ≡ seg.header.syn
filled-syn s seg available = ground arith

-- A round reads from the stream, moves the next number on, and leaves the window as it is.
pub record Advanced (s s' : TcpSender) : Type 0 where
  pub reads : length s'.stream.stream < length s.stream.stream
  pub next_le : s.next_seqno ≤ s'.next_seqno
  pub confirmed : s'.confirmed_seqno ≡ s.confirmed_seqno
  pub written : s'.stream.bytes_written ≡ s.stream.bytes_written

pub round-Advanced :
    {limit : ℕ} (s : TcpSender) (seg : TcpSegment) (available : ℕ)
    → Filling limit s seg available
    → 0 < length s.stream.stream
    → 0 < available
    → Advanced s (fill_round s seg available).0
unfolding send_tcp_segment
round-Advanced s seg available f h pos =
    let unfin = unfinished seg.header.fin s.stream.stream f.finished h in
    rw (fill_round_lem s seg available f.valid.streamed f.unsyn unfin) (record {
      reads = omega (
        arith,
        length-drop (payload_size s available) s.stream.stream,
        payload_size-pos s available f.valid.streamed h pos,
      );
      next_le = omega (
        arith,
        length-filled s seg available f.valid.streamed f.unsyn unfin,
        bit-ends_le s available,
        f.room,
        f.limit_fits,
      );
      confirmed = refl;
      written = refl;
    })

round-Accounted :
    {limit : ℕ} (s : TcpSender) (seg : TcpSegment) (available : ℕ)
    → Filling limit s seg available
    → 0 < length s.stream.stream
    → Accounted (send_tcp_segment (round_sender s available) (filled s seg available))
unfolding send_tcp_segment
round-Accounted s seg available f h =
    let unfin = unfinished seg.header.fin s.stream.stream f.finished h in
    let unended = unfinished s.fin_sent s.stream.stream f.fin_last h in
    elim f.valid.accounted [
      | inl z ↦ absurd (omega (arith, f.begun))
      | inr e ↦ inr (
          ground (
            arith,
            length-filled s seg available f.valid.streamed f.unsyn unfin,
            bit-ends_le s available,
            f.room,
            f.limit_fits,
            unended,
          ))
    ]

round-streamed :
    (s : TcpSender) (available : ℕ) → Inv.IsValid s.stream → Inv.IsValid (read_stream s available)
round-streamed s available v =
    let e : min (payload_size s available) s.stream.buffer_size ≡ payload_size s available =
      omega (arith, payload_size_le s available) in
    rw e at (advanced-IsValid (payload_size s available) v)

pub round-Filling :
    {limit : ℕ} (s : TcpSender) (seg : TcpSegment) (available : ℕ)
    → Filling limit s seg available
    → 0 < length s.stream.stream
    → 0 < available
    → Filling limit
        (fill_round s seg available).0
        (fill_round s seg available).1
        (sub64 available (length_in_sequence_space (fill_round s seg available).1))
unfolding send_tcp_segment
round-Filling {limit} s seg available f h pos =
    let unfin = unfinished seg.header.fin s.stream.stream f.finished h in
    let unended = unfinished s.fin_sent s.stream.stream f.fin_last h in
    let len = length-filled s seg available f.valid.streamed f.unsyn unfin in
    let le = bit-ends_le s available in
    rw (fill_round_lem s seg available f.valid.streamed f.unsyn unfin) (record {
      valid = record {
        in_flight = round-InFlight s seg available f h pos;
        streamed = round-streamed s available f.valid.streamed;
        accounted = round-Accounted s seg available f h;
      };
      begun = omega (arith, len, le, f.begun, f.room, f.limit_fits);
      unsyn = filled-syn s seg available ∙ f.unsyn;
      finished = λ e. round-empty s available (sym (filled-fin s seg available unfin) ∙ e);
      fin_last = λ e. round-empty s available (ground (arith, e, unended));
      room =
          omega (arith, length-numbered s (filled s seg available), len, le, f.room, f.limit_fits);
      limited = f.limited;
      limit_fits = f.limit_fits;
    })
