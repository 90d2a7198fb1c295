-- ===== src/TcpSender/Window.antt =====
-- `fill_window` of tcp_sender.cc: it keeps the invariant, stays in the window, and leaves nothing
-- to send for which there is room.
use tcp_implementation.Base.{
  ℕ, zero, suc, ◌+◌, ◌≤◌, ◌<◌, ◌≡◌, refl, [], true, false, arith, u64_mod, u16_mod, length,
  if◌then◌else◌, leb, ◌==◌, add64, sub64, Bool-cases, inl, inr, ◌⊎◌, drop_all,
}
use tcp_implementation.ByteStream.{ByteStream, eof, buffer_empty}
use tcp_implementation.TcpSegment.{TcpSegment, default_segment, length_in_sequence_space}
use tcp_implementation.TcpSender.{
  TcpSender, send_tcp_segment, with_syn, with_fin, receiver_logical_window_size, fill_loop,
  fill_window,
}
use tcp_implementation.TcpSender.Inv.{
  InFlight, IsValid, send_tcp_segment-InFlight, length-with_syn, length-with_fin,
}
use tcp_implementation.TcpSender.Rounds.{Filling}
use tcp_implementation.TcpSender.FillLoop.{fill_loop-Filled}

-- Where the window ends, in absolute numbers.
abbrev pub window_limit : TcpSender → ℕ
window_limit s = s.confirmed_seqno + receiver_logical_window_size s

-- What `fill_window` promises.
pub record Fills (s s' : TcpSender) : Type 0 where
  pub valid : IsValid s'
  pub next_le : s.next_seqno ≤ s'.next_seqno
  pub within : (s'.next_seqno ≤ s.next_seqno) ⊎ (s'.next_seqno ≤ window_limit s)
  pub confirmed : s'.confirmed_seqno ≡ s.confirmed_seqno
  pub written : s'.stream.bytes_written ≡ s.stream.bytes_written
  pub exhausted :
      (s.fin_sent ≡ false)
      → 0 < s.next_seqno
      → (s'.stream.stream ≡ []) ⊎ (window_limit s ≤ s'.next_seqno)

logical_bounds :
    (s : TcpSender)
    → s.receiver_window_size < u16_mod
    → (0 < receiver_logical_window_size s) × (receiver_logical_window_size s ≤ 65535)
unfolding receiver_logical_window_size
logical_bounds s h = elim (Bool-cases (s.receiver_window_size == 0)) [
  | inl e ↦ ground (arith, e)
  | inr e ↦ ground (arith, e)
]

-- A segment of SYN or FIN alone.
bare-InFlight :
    (s : TcpSender) (seg : TcpSegment)
    → InFlight s
    → length_in_sequence_space seg ≡ 1
    → s.next_seqno < s.confirmed_seqno + 65535
    → s.next_seqno + 1 < u64_mod
    → InFlight (send_tcp_segment s seg)
bare-InFlight s seg v e room fits =
    send_tcp_segment-InFlight s seg v (omega arith) (omega arith) (omega arith) (omega arith)

syn-Fills :
    (s : TcpSender)
    → IsValid s
    → s.next_seqno ≡ 0
    → Fills s (send_tcp_segment s (with_syn default_segment))
unfolding send_tcp_segment
syn-Fills s v e =
    let w = logical_bounds s v.in_flight.window_fits in
    record {
      valid = record {
        in_flight =
            bare-InFlight s (with_syn default_segment) v.in_flight length-with_syn (omega arith)
              (omega arith);
        streamed = v.streamed;
        accounted = elim v.accounted [
          | inl z ↦ inr (ground (arith, z, length-with_syn))
          | inr p ↦ absurd (omega arith)
        ];
      };
      next_le = omega arith;
      within = inr (omega (arith, length-with_syn, w));
      confirmed = refl;
      written = refl;
      exhausted = λ u p. absurd (omega arith);
    }

same-Fills :
    (s : TcpSender) → IsValid s → (s.fin_sent ≡ true) ⊎ (window_limit s ≤ s.next_seqno) → Fills s s
same-Fills s v e = record {
  valid = v;
  next_le = omega arith;
  within = inl (omega arith);
  confirmed = refl;
  written = refl;
  exhausted = λ u p. elim e [ inl h ↦ absurd (ground (arith, h, u)) | inr h ↦ inr h ];
}

eof-empty : (b : ByteStream) → eof b ≡ true → b.stream ≡ []
unfolding eof buffer_empty
eof-empty b e = drop_all 0 b.stream (ground (arith, e))

fin-Fills :
    (s : TcpSender)
    → IsValid s
    → s.fin_sent ≡ false
    → 0 < s.next_seqno
    → s.next_seqno < window_limit s
    → s.next_seqno + 1 < u64_mod
    → eof s.stream ≡ true
    → Fills s (record (send_tcp_segment s (with_fin default_segment)) { fin_sent = true })
unfolding send_tcp_segment
fin-Fills s v unfin begun room fits ended =
    let w = logical_bounds s v.in_flight.window_fits in
    let f =
      bare-InFlight s (with_fin default_segment) v.in_flight length-with_fin (omega arith)
        (omega arith) in
    record {
      valid = record {
        in_flight = record {
          counted = f.counted;
          counted_le = f.counted_le;
          chained = f.chained;
          small = f.small;
          pending = f.pending;
          based = f.based;
          confirmed_le = f.confirmed_le;
          windowed = f.windowed;
          window_fits = f.window_fits;
          isn_fits = f.isn_fits;
          timed = f.timed;
        };
        streamed = v.streamed;
        accounted = elim v.accounted [
          | inl z ↦ absurd (omega arith)
          | inr p ↦ inr (ground (arith, p, unfin, length-with_fin))
        ];
      };
      next_le = omega (arith, length-with_fin);
      within = inr (omega (arith, length-with_fin, w));
      confirmed = refl;
      written = refl;
      exhausted = λ u p. inl (eof-empty s.stream ended);
    }

rounds-Fills :
    (s : TcpSender)
    → IsValid s
    → s.fin_sent ≡ false
    → 0 < s.next_seqno
    → s.next_seqno < window_limit s
    → window_limit s < u64_mod
    → Fills s
        (fill_loop
          (length s.stream.stream)
          s
          default_segment
          (sub64 (receiver_logical_window_size s) (sub64 s.next_seqno s.confirmed_seqno))).0
rounds-Fills s v unfin begun room fits =
    let w = logical_bounds s v.in_flight.window_fits in
    let available = sub64 (receiver_logical_window_size s) (sub64 s.next_seqno s.confirmed_seqno) in
    let filling : Filling (window_limit s) s default_segment available = record {
      valid = v;
      begun = begun;
      unsyn = refl;
      finished = λ e. ground (arith, e);
      fin_last = λ e. ground (arith, e, unfin);
      room = omega (arith, v.in_flight.confirmed_le);
      limited = omega (arith, w);
      limit_fits = fits;
    } in
    let f =
      fill_loop-Filled (length s.stream.stream) s default_segment available filling (omega arith) in
    record {
      valid = f.valid;
      next_le = f.next_le;
      within = inr f.within;
      confirmed = f.confirmed;
      written = f.written;
      exhausted = λ u p. elim f.exhausted [ inl e ↦ inl e | inr e ↦ inr (omega arith) ];
    }

-- The cases of `fill_window`.
fill_window_stop :
    (s : TcpSender)
    → (s.fin_sent ≡ true)
      ⊎ (0 < s.next_seqno)
        × (leb (add64 s.confirmed_seqno (receiver_logical_window_size s)) s.next_seqno ≡ true)
    → fill_window s ≡ s
unfolding fill_window
fill_window_stop s (inl e) = ground (arith, e)
fill_window_stop s (inr e) = ground (arith, e)

fill_window_syn :
    (s : TcpSender)
    → s.fin_sent ≡ false
    → s.next_seqno ≡ 0
    → fill_window s ≡ send_tcp_segment s (with_syn default_segment)
unfolding fill_window
fill_window_syn s unfin e = ground (arith, unfin, e)

fill_window_go :
    (s : TcpSender)
    → s.fin_sent ≡ false
    → 0 < s.next_seqno
    → leb (add64 s.confirmed_seqno (receiver_logical_window_size s)) s.next_seqno ≡ false
    → fill_window s ≡ (
        if eof s.stream
        then record (send_tcp_segment s (with_fin default_segment)) { fin_sent = true }
        else (fill_loop
            (length s.stream.stream)
            s
            default_segment
            (sub64 (receiver_logical_window_size s) (sub64 s.next_seqno s.confirmed_seqno))).0)
unfolding fill_window
fill_window_go s unfin begun e = ground (arith, unfin, begun, e)

begun-Fills :
    (s : TcpSender)
    → IsValid s
    → window_limit s < u64_mod
    → s.fin_sent ≡ false
    → 0 < s.next_seqno
    → Fills s (fill_window s)
begun-Fills s v fits unfin begun =
    elim (Bool-cases
      (leb (add64 s.confirmed_seqno (receiver_logical_window_size s)) s.next_seqno)) [
        | inl full ↦
            rw (fill_window_stop s (inr (begun, full)))
              (same-Fills s v (inr (ground (arith, full))))
        | inr room ↦ rw (fill_window_go s unfin begun room) (elim (Bool-cases (eof s.stream)) [
          | inl ended ↦
              rw ended
                (fin-Fills s v unfin begun (ground (arith, room)) (ground (arith, room)) ended)
          | inr unended ↦ rw unended (rounds-Fills s v unfin begun (ground (arith, room)) fits)
        ])
      ]

pub zero-cases : (n : ℕ) → (n ≡ 0) ⊎ (0 < n)
zero-cases zero = inl refl
zero-cases (suc n) = inr (omega arith)

pub fill_window-Fills :
    (s : TcpSender) → IsValid s → s.confirmed_seqno + 65536 < u64_mod → Fills s (fill_window s)
fill_window-Fills s v fits = elim (Bool-cases s.fin_sent) [
  | inl e ↦ rw (fill_window_stop s (inl e)) (same-Fills s v (inl e))
  | inr unfin ↦ elim (zero-cases s.next_seqno) [
    | inl z ↦ rw (fill_window_syn s unfin z) (syn-Fills s v z)
    | inr begun ↦
        begun-Fills s v (omega (arith, logical_bounds s v.in_flight.window_fits)) unfin begun
  ]
]
