-- ===== src/TcpSender/Ack.antt =====
-- `ack_received` of tcp_sender.cc: what it does with an acknowledgment, and that the invariant
-- stays.
use mathlib.Core.Path.{subst}
use tcp_implementation.Base.{
  ℕ, ◌+◌, ◌^◌, ◌≤◌, ◌<◌, ◌≡◌, refl, sym, ap, ◌∙◌, List, [], ◌∷◌, Bool, true, false, not, arith,
  u64_mod, u16_mod, ltb, Bool-cases, inl, inr, ◌⊎◌,
}
use tcp_implementation.WrappingIntegers.{WrappingInt32, wrap, unwrap}
use tcp_implementation.ByteStream.Inv
use tcp_implementation.ByteStream.Inv.{advanced, advanced-IsValid, read_lem, read-IsValid}
use tcp_implementation.TcpSegment.{TcpSegment}
use tcp_implementation.TcpSender.{TcpSender, fill_window}
use tcp_implementation.TcpSender.Inv.{base, InFlight, IsValid}
use tcp_implementation.WrappingIntegers.Unwrap.{unwrap-wrap}
use tcp_implementation.TcpSender.{ack_loop, is_empty, after_ack, ack_received}
use tcp_implementation.TcpSender.Inv.{occupied, InFlight-bounds, Accounted-same}
use tcp_implementation.TcpSender.Window.{fill_window-Fills}
use tcp_implementation.TcpSender.AckLoop.{unacked, Popping, Popped, ack_loop-Popped}

-- The sender that the loop starts with.
abbrev pub confirmed : TcpSender → ℕ → ℕ → TcpSender
confirmed s abs_ackno window_size = record s {
  confirmed_seqno = abs_ackno;
  receiver_window_size = window_size;
}

confirmed-Popping :
    (s : TcpSender) (abs_ackno window_size : ℕ)
    → InFlight s
    → s.next_seqno < 2 ^ 63
    → Popping s.outstanding_segments (confirmed s abs_ackno window_size)
confirmed-Popping s abs_ackno window_size v bound = record {
  queued = refl;
  counted = v.counted;
  counted_le = v.counted_le;
  near = omega (arith, InFlight-bounds s v);
  bounded = bound;
  chained = v.chained;
  small = v.small;
  isn_fits = v.isn_fits;
}

-- What the loop of `ack_received` yields.
abbrev loop_result : TcpSender → ℕ → ℕ → TcpSender × Bool × Bool
loop_result s abs_ackno window_size =
    ack_loop s.outstanding_segments abs_ackno false (confirmed s abs_ackno window_size)

loop_result-Popped :
    (s : TcpSender) (abs_ackno window_size : ℕ)
    → InFlight s
    → s.next_seqno < 2 ^ 63
    → s.confirmed_seqno ≤ abs_ackno
    → Popped abs_ackno (confirmed s abs_ackno window_size) (loop_result s abs_ackno window_size)
loop_result-Popped s abs_ackno window_size v bound lo =
    ack_loop-Popped s.outstanding_segments abs_ackno false (confirmed s abs_ackno window_size)
      (confirmed-Popping s abs_ackno window_size v bound) (omega (arith, v.based))

Popped-IsValid :
    (s : TcpSender) (abs_ackno window_size : ℕ) (r : TcpSender × Bool × Bool)
    → IsValid s
    → s.confirmed_seqno ≤ abs_ackno
    → abs_ackno ≤ s.next_seqno
    → window_size < u16_mod
    → Popped abs_ackno (confirmed s abs_ackno window_size) r
    → IsValid r.0
Popped-IsValid s abs_ackno window_size r v lo hi w q =
    let k = q.kept in
    record {
      in_flight = record {
        counted = q.popping.counted;
        counted_le = q.popping.counted_le;
        chained = q.popping.chained;
        small = q.popping.small;
        pending = rw (k.confirmed_seqno) (q.pending);
        based = omega (arith, q.based, k.confirmed_seqno);
        confirmed_le = omega (arith, k.confirmed_seqno, k.next_seqno);
        windowed = omega (arith, k.confirmed_seqno, k.next_seqno, v.in_flight.windowed);
        window_fits = omega (arith, k.receiver_window_size);
        isn_fits = q.popping.isn_fits;
        timed = λ e.
            q.left
            ∙ ap (λ l. unacked abs_ackno (base s) l) (v.in_flight.timed (sym k.timing_begins ∙ e));
      };
      streamed = subst (λ b. Inv.IsValid b) (sym k.stream) v.streamed;
      accounted =
          Accounted-same (confirmed s abs_ackno window_size) (r.0) k.next_seqno
            (ap (λ b. b.bytes_read) k.stream) k.fin_sent v.accounted;
    }

-- The timer goes on as long as segments are outstanding.
timing-IsValid :
    (s : TcpSender)
    → IsValid s
    → IsValid (record s { timing_begins = not (is_empty s.outstanding_segments) })
timing-IsValid s v = record {
  in_flight = record {
    counted = v.in_flight.counted;
    counted_le = v.in_flight.counted_le;
    chained = v.in_flight.chained;
    small = v.in_flight.small;
    pending = v.in_flight.pending;
    based = v.in_flight.based;
    confirmed_le = v.in_flight.confirmed_le;
    windowed = v.in_flight.windowed;
    window_fits = v.in_flight.window_fits;
    isn_fits = v.in_flight.isn_fits;
    timed = stopped s.outstanding_segments;
  };
  streamed = v.streamed;
  accounted = v.accounted;
}
  where
    stopped : (segs : List TcpSegment) → not (is_empty segs) ≡ false → segs ≡ []
    stopped [] e = refl
    stopped (seg ∷ segs) e = ground (arith, e)

after_ack-IsValid :
    (s : TcpSender) (ack returned : Bool)
    → IsValid s
    → s.confirmed_seqno + 65536 < u64_mod
    → IsValid (after_ack (s, ack, returned))
unfolding after_ack
after_ack-IsValid s ack true v h = v
after_ack-IsValid s true false v h =
    timing-IsValid (fill_window s) ((fill_window-Fills s v h).valid)
after_ack-IsValid s false false v h = timing-IsValid s v

after_ack-written :
    (s : TcpSender) (ack returned : Bool)
    → IsValid s
    → s.confirmed_seqno + 65536 < u64_mod
    → (after_ack (s, ack, returned)).stream.bytes_written ≡ s.stream.bytes_written
unfolding after_ack
after_ack-written s ack true v h = refl
after_ack-written s true false v h = (fill_window-Fills s v h).written
after_ack-written s false false v h = refl

-- The two ways of `ack_received`.
ack_received_lem :
    (s : TcpSender) (ackno : WrappingInt32) (window_size abs_ackno : ℕ)
    → unwrap ackno s.isn s.next_seqno ≡ abs_ackno
    → (ack_received s ackno window_size ≡ s)
        × ((abs_ackno < s.confirmed_seqno) ⊎ (s.next_seqno < abs_ackno))
      ⊎ (ack_received s ackno window_size ≡ after_ack (loop_result s abs_ackno window_size))
        × (s.confirmed_seqno ≤ abs_ackno)
        × (abs_ackno ≤ s.next_seqno)
unfolding ack_received
ack_received_lem s ackno window_size abs_ackno e =
    elim (Bool-cases (ltb abs_ackno s.confirmed_seqno)) [
      | inl lo ↦ inl (ground (arith, e, lo), inl (ground (arith, lo)))
      | inr lo ↦ elim (Bool-cases (ltb s.next_seqno abs_ackno)) [
        | inl hi ↦ inl (ground (arith, e, hi), inr (ground (arith, hi)))
        | inr hi ↦ inr (ground (arith, e, lo, hi), ground (arith, lo), ground (arith, hi))
      ]
    ]

-- `ack_received` keeps the sender valid, whatever number and window it is given.
pub ack_received-IsValid :
    (s : TcpSender) (ackno : WrappingInt32) (window_size : ℕ)
    → IsValid s
    → window_size < u16_mod
    → s.next_seqno < 2 ^ 63
    → IsValid (ack_received s ackno window_size)
ack_received-IsValid s ackno window_size v w bound =
    let n = unwrap ackno s.isn s.next_seqno in
    elim (ack_received_lem s ackno window_size n refl) [
      | inl p ↦ rw (p.0) v
      | inr p ↦
          let q = loop_result-Popped s n window_size v.in_flight bound p.1 in
          let r = loop_result s n window_size in
          rw (p.0) (
            after_ack-IsValid r.0 r.1 r.2 (Popped-IsValid s n window_size r v p.1 p.2 w q)
              (omega (arith, q.kept.confirmed_seqno, bound, p.2)))
    ]

pub ack_received-written :
    (s : TcpSender) (ackno : WrappingInt32) (window_size : ℕ)
    → IsValid s
    → window_size < u16_mod
    → s.next_seqno < 2 ^ 63
    → (ack_received s ackno window_size).stream.bytes_written ≡ s.stream.bytes_written
ack_received-written s ackno window_size v w bound =
    let n = unwrap ackno s.isn s.next_seqno in
    elim (ack_received_lem s ackno window_size n refl) [
      | inl p ↦ ap (λ t. t.stream.bytes_written) p.0
      | inr p ↦
          let q = loop_result-Popped s n window_size v.in_flight bound p.1 in
          let r = loop_result s n window_size in
          rw (p.0) (
            after_ack-written r.0 r.1 r.2 (Popped-IsValid s n window_size r v p.1 p.2 w q)
              (omega (arith, q.kept.confirmed_seqno, bound, p.2))
            ∙ ap (λ b. b.bytes_written) q.kept.stream)
    ]

after_ack_returned : (r : TcpSender × Bool × Bool) → r.2 ≡ true → after_ack r ≡ r.0
unfolding after_ack
after_ack_returned (s, ack, returned) e = ground (arith, e)

not_empty-occupied : (segs : List TcpSegment) → (occupied segs ≡ 0 → ⊥) → not (is_empty segs) ≡ true
not_empty-occupied [] h = absurd (h refl)
not_empty-occupied (seg ∷ segs) h = refl

-- For a valid sender with numbers below 2^63: an acknowledgment of some of what was sent drops the
-- segments that it covers whole, and keeps the others. It sends nothing, even if the window that
-- comes with it has room.
pub ack_received_partial :
    (s : TcpSender) (n window_size : ℕ)
    → IsValid s
    → s.next_seqno < 2 ^ 63
    → s.confirmed_seqno ≤ n
    → n < s.next_seqno
    → let s' = ack_received s (wrap n s.isn) window_size in
      (s'.outstanding_segments ≡ unacked n (base s) s.outstanding_segments)
      × (s'.bytes_in_flight ≡ occupied s'.outstanding_segments)
      × (s'.confirmed_seqno ≡ n)
      × (s'.receiver_window_size ≡ window_size)
      × (s'.next_seqno ≡ s.next_seqno)
      × (s'.segments_out ≡ s.segments_out)
ack_received_partial s n window_size v bound lo hi =
    let f = v.in_flight in
    let u =
      unwrap-wrap n s.next_seqno s.isn f.isn_fits (omega arith) bound (omega arith)
        (omega (arith, f.windowed)) in
    let q = loop_result-Popped s n window_size f bound lo in
    let r = loop_result s n window_size in
    let some_left =
      not_empty-occupied r.0.outstanding_segments
        (λ e. omega (arith, q.popping.counted, q.based, q.kept.next_seqno, e)) in
    elim (ack_received_lem s (wrap n s.isn) window_size n u) [
      | inl p ↦ absurd (elim p.1 [ inl h ↦ omega arith | inr h ↦ omega arith ])
      | inr p ↦ rw (p.0) (
          rw (after_ack_returned r (q.returned ∙ some_left)) (
            q.left, q.popping.counted, q.kept.confirmed_seqno, q.kept.receiver_window_size,
            q.kept.next_seqno, q.kept.segments_out,
          ))
    ]

-- For a valid sender, and numbers below 2^63 and less than 2^31 apart: an acknowledgment from
-- before the last one, or of what was never sent, changes nothing.
pub ack_received_ignored :
    (s : TcpSender) (n window_size : ℕ)
    → IsValid s
    → s.next_seqno < 2 ^ 63
    → n < 2 ^ 63
    → (n < s.confirmed_seqno) × (s.next_seqno ≤ n + 2 ^ 31)
      ⊎ (s.next_seqno < n) × (n < s.next_seqno + 2 ^ 31)
    → ack_received s (wrap n s.isn) window_size ≡ s
ack_received_ignored s n window_size v bound bound' h =
    let f = v.in_flight in
    let u =
      unwrap-wrap n s.next_seqno s.isn f.isn_fits bound' bound (near_above h f.confirmed_le)
        (near_below h) in
    elim (ack_received_lem s (wrap n s.isn) window_size n u) [
      | inl p ↦ p.0
      | inr p ↦ absurd (elim h [ inl a ↦ omega arith | inr a ↦ omega arith ])
    ]
  where
    near_above :
        (n < s.confirmed_seqno) × (s.next_seqno ≤ n + 2 ^ 31)
          ⊎ (s.next_seqno < n) × (n < s.next_seqno + 2 ^ 31)
        → s.confirmed_seqno ≤ s.next_seqno
        → n < s.next_seqno + 2 ^ 31
    near_above (inl a) e = omega arith
    near_above (inr a) e = omega arith

    near_below :
        (n < s.confirmed_seqno) × (s.next_seqno ≤ n + 2 ^ 31)
          ⊎ (s.next_seqno < n) × (n < s.next_seqno + 2 ^ 31)
        → s.next_seqno ≤ n + 2 ^ 31
    near_below (inl a) = omega arith
    near_below (inr a) = omega arith
