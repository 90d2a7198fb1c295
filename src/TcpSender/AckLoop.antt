-- ===== src/TcpSender/AckLoop.antt =====
-- The loop of `ack_received` in tcp_sender.cc: it drops the acknowledged segments, and no others.
use mathlib.Core.Path.{subst}
use tcp_implementation.Base.{
  ℕ, ◌+◌, ◌^◌, ◌≤◌, ◌<◌, ◌≡◌, refl, sym, ap, ◌∙◌, List, [], ◌∷◌, Bool, true, false, not, arith,
  u32_mod, All, if◌then◌else◌, ltb, sub64, Bool-cases, inl, inr,
}
use tcp_implementation.WrappingIntegers.{unwrap}
use tcp_implementation.TcpSegment.{TcpSegment, length_in_sequence_space}
use tcp_implementation.TcpSender.{TcpSender}
use tcp_implementation.TcpSender.Inv.{IsSmall, base}
use tcp_implementation.WrappingIntegers.Unwrap.{unwrap-wrap}
use tcp_implementation.TcpSender.{outstanding_ackno, restart_timer, ack_loop, is_empty}
use tcp_implementation.TcpSender.Inv.{occupied, IsChain, IsPending}

-- The segments, numbered from `start` on, that an acknowledgment leaves: all from the first on that
-- it does not cover whole.
abbrev pub unacked : ℕ → ℕ → List TcpSegment → List TcpSegment
unacked abs_ackno start [] = []
unacked abs_ackno start (seg ∷ segs) =
    let rest = unacked abs_ackno (start + length_in_sequence_space seg) segs in
    if ltb abs_ackno (start + length_in_sequence_space seg) then seg ∷ segs else rest

-- The sender in the loop, with `segs` outstanding.
pub record Popping (segs : List TcpSegment) (s : TcpSender) : Type 0 where
  pub queued : s.outstanding_segments ≡ segs
  pub counted : s.bytes_in_flight ≡ occupied segs
  pub counted_le : s.bytes_in_flight ≤ s.next_seqno
  pub near : s.bytes_in_flight < 2 ^ 31
  pub bounded : s.next_seqno < 2 ^ 63
  pub chained : IsChain s.isn (base s) segs
  pub small : All IsSmall segs
  pub isn_fits : s.isn.raw_value < u32_mod

-- The fields that the loop leaves.
pub record Kept (s s' : TcpSender) : Type 0 where
  pub next_seqno : s'.next_seqno ≡ s.next_seqno
  pub stream : s'.stream ≡ s.stream
  pub fin_sent : s'.fin_sent ≡ s.fin_sent
  pub isn : s'.isn ≡ s.isn
  pub segments_out : s'.segments_out ≡ s.segments_out
  pub confirmed_seqno : s'.confirmed_seqno ≡ s.confirmed_seqno
  pub receiver_window_size : s'.receiver_window_size ≡ s.receiver_window_size
  pub timing_begins : s'.timing_begins ≡ s.timing_begins

-- What the loop yields.
pub record Popped (abs_ackno : ℕ) (s : TcpSender) (r : TcpSender × Bool × Bool) : Type 0 where
  pub kept : Kept s r.0
  pub left : r.0.outstanding_segments ≡ unacked abs_ackno (base s) s.outstanding_segments
  pub popping : Popping (r.0.outstanding_segments) (r.0)
  pub based : base r.0 ≤ abs_ackno
  pub pending : IsPending abs_ackno (base r.0) (r.0.outstanding_segments)
  pub returned : r.2 ≡ not (is_empty r.0.outstanding_segments)

outstanding_ackno-chain :
    (s : TcpSender) (front : TcpSegment) (rest : List TcpSegment)
    → Popping (front ∷ rest) s
    → outstanding_ackno s front ≡ base s + length_in_sequence_space front
unfolding outstanding_ackno
outstanding_ackno-chain s front rest p =
    let u : unwrap front.header.seqno s.isn s.next_seqno ≡ base s = rw (p.chained.0) (
      unwrap-wrap (base s) s.next_seqno s.isn p.isn_fits (omega (arith, p.bounded)) p.bounded
        (omega (arith)) (omega (arith, p.counted_le, p.near))) in
    omega (arith, u, p.small.0, p.bounded, p.counted_le)

-- The sender after a segment is popped.
abbrev popped : TcpSender → TcpSegment → List TcpSegment → Bool → TcpSender
popped s front rest ack = record s {
  bytes_in_flight = sub64 s.bytes_in_flight (length_in_sequence_space front);
  outstanding_segments = rest;
  applying_retransmission_timeout =
      if ack then s.applying_retransmission_timeout else s.initial_retransmission_timeout;
  consecutive_retransmissions = if ack then s.consecutive_retransmissions else 0;
  last_tick_time = if ack then s.last_tick_time else 0;
}

ack_loop_lem :
    (front : TcpSegment) (rest : List TcpSegment) (abs_ackno : ℕ) (ack : Bool) (s : TcpSender)
    → ack_loop (front ∷ rest) abs_ackno ack s ≡ (
        if ltb abs_ackno (outstanding_ackno s front)
        then (s, ack, true)
        else ack_loop rest abs_ackno true (popped s front rest ack))
unfolding ack_loop restart_timer
ack_loop_lem front rest abs_ackno true s = refl
ack_loop_lem front rest abs_ackno false s = refl

base-popped :
    (s : TcpSender) (front : TcpSegment) (rest : List TcpSegment) (ack : Bool)
    → Popping (front ∷ rest) s
    → base (popped s front rest ack) ≡ base s + length_in_sequence_space front
base-popped s front rest ack p = omega (arith, p.counted, p.counted_le, p.bounded)

popped-Popping :
    (s : TcpSender) (front : TcpSegment) (rest : List TcpSegment) (ack : Bool)
    → Popping (front ∷ rest) s
    → Popping rest (popped s front rest ack)
popped-Popping s front rest ack p =
    let e = base-popped s front rest ack p in
    record {
      queued = refl;
      counted = omega (arith, p.counted, p.counted_le, p.bounded);
      counted_le = omega (arith, p.counted, p.counted_le, p.bounded);
      near = omega (arith, p.counted, p.counted_le, p.bounded, p.near);
      bounded = p.bounded;
      chained = rw e (p.chained.1);
      small = p.small.1;
      isn_fits = p.isn_fits;
    }

Popped-popped :
    {abs_ackno : ℕ} (s : TcpSender) (front : TcpSegment) (rest : List TcpSegment) (ack : Bool)
    (r : TcpSender × Bool × Bool)
    → Popping (front ∷ rest) s
    → ltb abs_ackno (base s + length_in_sequence_space front) ≡ false
    → Popped abs_ackno (popped s front rest ack) r
    → Popped abs_ackno s r
Popped-popped {abs_ackno} s front rest ack r p e q = record {
  kept = record {
    next_seqno = q.kept.next_seqno;
    stream = q.kept.stream;
    fin_sent = q.kept.fin_sent;
    isn = q.kept.isn;
    segments_out = q.kept.segments_out;
    confirmed_seqno = q.kept.confirmed_seqno;
    receiver_window_size = q.kept.receiver_window_size;
    timing_begins = q.kept.timing_begins;
  };
  left =
      q.left
      ∙ rw (p.queued) (rw e (ap (λ n. unacked abs_ackno n rest) (base-popped s front rest ack p)));
  popping = q.popping;
  based = q.based;
  pending = q.pending;
  returned = q.returned;
}

stop-Popped :
    (segs : List TcpSegment) (abs_ackno : ℕ) (ack returned : Bool) (s : TcpSender)
    → Popping segs s
    → base s ≤ abs_ackno
    → unacked abs_ackno (base s) segs ≡ segs
    → IsPending abs_ackno (base s) segs
    → returned ≡ not (is_empty segs)
    → Popped abs_ackno s (s, ack, returned)
stop-Popped segs abs_ackno ack returned s p b e pending r =
    let q = sym p.queued in
    record {
      kept = record {
        next_seqno = refl;
        stream = refl;
        fin_sent = refl;
        isn = refl;
        segments_out = refl;
        confirmed_seqno = refl;
        receiver_window_size = refl;
        timing_begins = refl;
      };
      left = subst (λ l. l ≡ unacked abs_ackno (base s) l) q (sym e);
      popping = subst (λ l. Popping l s) q p;
      based = b;
      pending = subst (λ l. IsPending abs_ackno (base s) l) q pending;
      returned = subst (λ l. returned ≡ not (is_empty l)) q r;
    }

pub ack_loop-Popped :
    (segs : List TcpSegment) (abs_ackno : ℕ) (ack : Bool) (s : TcpSender)
    → Popping segs s
    → base s ≤ abs_ackno
    → Popped abs_ackno s (ack_loop segs abs_ackno ack s)
unfolding ack_loop
ack_loop-Popped [] abs_ackno ack s p b = stop-Popped [] abs_ackno ack false s p b refl tt refl
ack_loop-Popped (front ∷ rest) abs_ackno ack s p b = rw (ack_loop_lem front rest abs_ackno ack s) (
    rw (outstanding_ackno-chain s front rest p)
      (elim (Bool-cases (ltb abs_ackno (base s + length_in_sequence_space front))) [
        | inl e ↦ rw e (
            stop-Popped (front ∷ rest) abs_ackno ack true s p b (ground (arith, e))
              (ground (arith, e)) refl)
        | inr e ↦ rw e (
            Popped-popped s front rest ack (ack_loop rest abs_ackno true (popped s front rest ack))
              p e
              (ack_loop-Popped rest abs_ackno true (popped s front rest ack)
                (popped-Popping s front rest ack p)
                (ground (arith, base-popped s front rest ack p, e))))
      ]))
