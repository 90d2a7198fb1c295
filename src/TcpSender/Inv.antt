-- ===== src/TcpSender/Inv.antt =====
-- The sender's invariant: the segments in flight, their numbers, the window and the timer.
use tcp_implementation.Base.{
  ℕ, ◌+◌, ◌-◌, ◌≤◌, ◌<◌, ◌≡◌, refl, ap, ◌∙◌, List, [], ◌∷◌, ◌++◌, Bool, true, false, arith, u64_mod,
  u32_mod, u16_mod, All, All-append, if◌then◌else◌, inl, inr, ◌⊎◌,
}
use tcp_implementation.WrappingIntegers.{WrappingInt32, wrap}
use tcp_implementation.ByteStream.Inv
use tcp_implementation.TcpSegment.{TcpSegment, default_segment, length_in_sequence_space}
use tcp_implementation.TcpSender.{TcpSender, send_tcp_segment, with_seqno, with_syn, with_fin}

-- How many sequence numbers a list of segments takes.
abbrev pub occupied : List TcpSegment → ℕ
occupied [] = 0
occupied (seg ∷ segs) = length_in_sequence_space seg + occupied segs

-- The segments are numbered one after another from `start` on.
abbrev pub IsChain : WrappingInt32 → ℕ → List TcpSegment → Type 0
IsChain isn start [] = Unit {0}
IsChain isn start (seg ∷ segs) =
    (seg.header.seqno ≡ wrap start isn) × IsChain isn (start + length_in_sequence_space seg) segs

-- The oldest of the segments is not acknowledged whole.
abbrev pub IsPending : ℕ → ℕ → List TcpSegment → Type 0
IsPending confirmed start [] = Unit {0}
IsPending confirmed start (seg ∷ segs) = confirmed < start + length_in_sequence_space seg

-- A segment within the payload limit, with SYN and FIN.
abbrev pub IsSmall : TcpSegment → Type 0
IsSmall seg = length_in_sequence_space seg ≤ 1002

abbrev pub bit : Bool → ℕ
bit true = 1
bit false = 0

pub bit_le : (b : Bool) → bit b ≤ 1
bit_le true = omega arith
bit_le false = omega arith

-- The absolute number of the oldest outstanding segment, or of the next one to be sent.
abbrev pub base : TcpSender → ℕ
base s = s.next_seqno - s.bytes_in_flight

-- The outstanding segments are what `bytes_in_flight` counts, they take the numbers up to the next
-- one, and the oldest of them waits for its acknowledgment.
pub record InFlight (s : TcpSender) : Type 0 where
  pub counted : s.bytes_in_flight ≡ occupied s.outstanding_segments
  pub counted_le : s.bytes_in_flight ≤ s.next_seqno
  pub chained : IsChain s.isn (base s) s.outstanding_segments
  pub small : All IsSmall s.outstanding_segments
  pub pending : IsPending s.confirmed_seqno (base s) s.outstanding_segments
  pub based : base s ≤ s.confirmed_seqno
  pub confirmed_le : s.confirmed_seqno ≤ s.next_seqno
  pub windowed : s.next_seqno ≤ s.confirmed_seqno + 65535
  pub window_fits : s.receiver_window_size < u16_mod
  pub isn_fits : s.isn.raw_value < u32_mod
  pub timed : s.timing_begins ≡ false → s.outstanding_segments ≡ []

-- The next number counts SYN, the bytes read from the stream, and FIN.
abbrev pub Accounted : TcpSender → Type 0
Accounted s =
    (s.next_seqno ≡ 0) × (s.stream.bytes_read ≡ 0) × (s.fin_sent ≡ false)
    ⊎ (s.next_seqno ≡ 1 + s.stream.bytes_read + bit s.fin_sent)

pub record IsValid (s : TcpSender) : Type 0 where
  pub in_flight : InFlight s
  pub streamed : Inv.IsValid s.stream
  pub accounted : Accounted s

occupied-append : (xs ys : List TcpSegment) → occupied (xs ++ ys) ≡ occupied xs + occupied ys
occupied-append [] ys = omega arith
occupied-append (x ∷ xs) ys = omega (arith, occupied-append xs ys)

IsChain-append :
    (isn : WrappingInt32) (start next : ℕ) (xs : List TcpSegment) (seg : TcpSegment)
    → next ≡ start + occupied xs
    → IsChain isn start xs
    → seg.header.seqno ≡ wrap next isn
    → IsChain isn start (xs ++ seg ∷ [])
IsChain-append isn start next [] seg e c h =
    let e' : next ≡ start = omega arith in (h ∙ ap (λ n. wrap n isn) e', tt)
IsChain-append isn start next (x ∷ xs) seg e c h =
    (c.0, IsChain-append isn (start + length_in_sequence_space x) next xs seg (omega arith) c.1 h)

IsPending-append :
    (confirmed start : ℕ) (xs : List TcpSegment) (seg : TcpSegment)
    → IsPending confirmed start xs
    → confirmed < start + occupied xs + length_in_sequence_space seg
    → IsPending confirmed start (xs ++ seg ∷ [])
IsPending-append confirmed start [] seg p h = omega arith
IsPending-append confirmed start (x ∷ xs) seg p h = p

-- The segment as it is queued.
abbrev pub numbered : TcpSender → TcpSegment → TcpSegment
numbered s seg = with_seqno seg (wrap s.next_seqno s.isn)

-- What sending a segment changes, where no counter wraps.
send_tcp_segment_lem :
    (s : TcpSender) (seg : TcpSegment)
    → s.bytes_in_flight ≤ s.next_seqno
    → s.next_seqno + length_in_sequence_space seg < u64_mod
    → send_tcp_segment s seg ≡ record s {
      segments_out = s.segments_out ++ numbered s seg ∷ [];
      outstanding_segments = s.outstanding_segments ++ numbered s seg ∷ [];
      next_seqno = s.next_seqno + length_in_sequence_space seg;
      bytes_in_flight = s.bytes_in_flight + length_in_sequence_space seg;
      timing_begins = true;
      last_tick_time = if s.timing_begins then s.last_tick_time else 0;
    }
unfolding send_tcp_segment
send_tcp_segment_lem s seg le h = ground arith

pub length-numbered :
    (s : TcpSender) (seg : TcpSegment)
    → length_in_sequence_space (numbered s seg) ≡ length_in_sequence_space seg
unfolding length_in_sequence_space
length-numbered s seg = refl

pub send_tcp_segment-InFlight :
    (s : TcpSender) (seg : TcpSegment)
    → InFlight s
    → IsSmall seg
    → 0 < length_in_sequence_space seg
    → s.next_seqno + length_in_sequence_space seg ≤ s.confirmed_seqno + 65535
    → s.next_seqno + length_in_sequence_space seg < u64_mod
    → InFlight (send_tcp_segment s seg)
send_tcp_segment-InFlight s seg v small pos room fits =
    rw (send_tcp_segment_lem s seg v.counted_le fits) (
      let sent = numbered s seg in
      let same : s.next_seqno
            + length_in_sequence_space seg
            - (s.bytes_in_flight + length_in_sequence_space seg)
          ≡ base s =
        omega arith in
      record {
        counted = omega (
          arith,
          v.counted,
          length-numbered s seg,
          occupied-append s.outstanding_segments (sent ∷ []),
        );
        counted_le = omega (arith, v.counted_le);
        chained = rw same (
            IsChain-append s.isn (base s) s.next_seqno s.outstanding_segments sent
              (omega (arith, v.counted, v.counted_le)) v.chained refl);
        small =
            All-append IsSmall s.outstanding_segments (sent ∷ []) v.small
              (omega (arith, length-numbered s seg), tt);
        pending = rw same (
            IsPending-append s.confirmed_seqno (base s) s.outstanding_segments sent v.pending
              (omega (arith, v.counted, v.counted_le, v.confirmed_le, length-numbered s seg)));
        based = omega (arith, v.based, v.counted_le);
        confirmed_le = omega (arith, v.confirmed_le);
        windowed = room;
        window_fits = v.window_fits;
        isn_fits = v.isn_fits;
        timed = λ e. ground (arith, e);
      })

length-default : (b : Bool) → length_in_sequence_space default_segment ≡ 0
unfolding length_in_sequence_space
length-default b = refl

pub length-with_syn : length_in_sequence_space (with_syn default_segment) ≡ 1
unfolding length_in_sequence_space
length-with_syn = refl

pub length-with_fin : length_in_sequence_space (with_fin default_segment) ≡ 1
unfolding length_in_sequence_space
length-with_fin = refl

in_flight_le :
    (segs : List TcpSegment) (confirmed start flight : ℕ)
    → flight ≡ occupied segs
    → All IsSmall segs
    → IsPending confirmed start segs
    → start + flight ≤ confirmed + 65535
    → flight ≤ 66537
in_flight_le [] confirmed start flight e small pending h = omega arith
in_flight_le (seg ∷ segs) confirmed start flight e small pending h = omega (arith, small.0)

-- A valid sender has at most a window and a segment in flight.
pub InFlight-bounds : (s : TcpSender) → InFlight s → s.bytes_in_flight ≤ 66537
InFlight-bounds s v =
    in_flight_le s.outstanding_segments s.confirmed_seqno (base s) s.bytes_in_flight v.counted
      v.small v.pending (omega (arith, v.counted_le, v.windowed))

pub Accounted-same :
    (s s' : TcpSender)
    → s'.next_seqno ≡ s.next_seqno
    → s'.stream.bytes_read ≡ s.stream.bytes_read
    → s'.fin_sent ≡ s.fin_sent
    → Accounted s
    → Accounted s'
Accounted-same s s' n b f (inl z) = inl (n ∙ z.0, b ∙ z.1, f ∙ z.2)
Accounted-same s s' n b f (inr e) = inr (omega (arith, n, b, ap bit f, e))
