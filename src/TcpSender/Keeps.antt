-- ===== src/TcpSender/Keeps.antt =====
-- The operations of tcp_sender.cc on the timer and the stream keep the invariant of the sender.
use mathlib.Core.Path.{subst}
use tcp_implementation.Base.{
  ℕ, ◌+◌, ◌*◌, ◌%◌, ◌≤◌, ◌<◌, ◌≡◌, refl, sym, ap, List, [], ◌∷◌, ◌++◌, ◌||◌, arith, u64_mod,
  u32_mod, u16_mod, length, if◌then◌else◌, ltb, leb, add64, Bool-cases, inl, inr,
}
use tcp_implementation.WrappingIntegers.{WrappingInt32}
use tcp_implementation.ByteStream
use tcp_implementation.ByteStream.{ByteStream, read, eof, buffer_empty}
use tcp_implementation.ByteStream.Inv
use tcp_implementation.ByteStream.Inv.{advanced, advanced-IsValid, read_lem, read-IsValid}
use tcp_implementation.TcpSegment.{TcpSegment}
use tcp_implementation.TcpSender.{TcpSender, new}
use tcp_implementation.TcpSender.Inv.{IsValid}
use tcp_implementation.TcpSender.{retransmit, tick, tick_at}
use tcp_implementation.TcpSender.Inv.{Accounted-same, bit_le}
use tcp_implementation.ByteStream.{write, end_input}
use tcp_implementation.ByteStream.Inv.{new-IsValid, write-IsValid, write_lem}

-- The invariant, with the bytes that were written.
abbrev pub Invariant : ℕ → TcpSender → Type 0
Invariant n s = IsValid s × (s.stream.bytes_written ≤ n)

-- What was read is what was written, so the writer bounds the sequence numbers.
pub next_seqno_le : {n : ℕ} {s : TcpSender} → Invariant n s → s.next_seqno ≤ n + 2
next_seqno_le {n} {s} i = elim i.0.accounted [
  | inl z ↦ omega arith
  | inr e ↦ omega (arith, i.0.streamed.balance, bit_le s.fin_sent)
]

pub new-Invariant :
    (capacity retx_timeout : ℕ) (isn : WrappingInt32)
    → capacity < u64_mod
    → isn.raw_value < u32_mod
    → Invariant 0 (new capacity retx_timeout isn)
unfolding new ByteStream.new
new-Invariant capacity retx_timeout isn c h = (
  record {
    in_flight = record {
      counted = refl;
      counted_le = omega arith;
      chained = tt;
      small = tt;
      pending = tt;
      based = omega arith;
      confirmed_le = omega arith;
      windowed = omega arith;
      window_fits = omega arith;
      isn_fits = h;
      timed = λ e. refl;
    };
    streamed = new-IsValid capacity c;
    accounted = inl (refl, refl, refl);
  },
  omega arith,
)

-- A sender whose queue and timer differ.
abbrev pub timed_as : TcpSender → List TcpSegment → ℕ → ℕ → ℕ → TcpSender
timed_as s out time retransmissions timeout = record s {
  segments_out = out;
  last_tick_time = time;
  consecutive_retransmissions = retransmissions;
  applying_retransmission_timeout = timeout;
}

pub timed_as-Invariant :
    {n : ℕ} (s : TcpSender) (out : List TcpSegment) (time retransmissions timeout : ℕ)
    → Invariant n s
    → Invariant n (timed_as s out time retransmissions timeout)
timed_as-Invariant s out time retransmissions timeout i =
    let f = i.0.in_flight in
    (
      record {
        in_flight = record {
          counted = f.counted;
          counted_le = f.counted_le;
          chained = f.chained;
          small = f.small;
          pending = f.pending;
          based = f.based;
          confirmed_le = f.confirmed_le;
          windowed = f.windowed;
          window_fits = f.window_fits;
          isn_fits = f.isn_fits;
          timed = f.timed;
        };
        streamed = i.0.streamed;
        accounted = i.0.accounted;
      },
      i.1,
    )

pub stream-IsValid :
    (s : TcpSender) (b : ByteStream)
    → Inv.IsValid b
    → b.bytes_read ≡ s.stream.bytes_read
    → IsValid s
    → IsValid (record s { stream = b })
stream-IsValid s b v e i =
    let f = i.in_flight in
    record {
      in_flight = record {
        counted = f.counted;
        counted_le = f.counted_le;
        chained = f.chained;
        small = f.small;
        pending = f.pending;
        based = f.based;
        confirmed_le = f.confirmed_le;
        windowed = f.windowed;
        window_fits = f.window_fits;
        isn_fits = f.isn_fits;
        timed = f.timed;
      };
      streamed = v;
      accounted = Accounted-same s (record s { stream = b }) refl e refl i.accounted;
    }

pub write-Invariant :
    {n : ℕ} (s : TcpSender) (bytes : List ℕ)
    → Invariant n s
    → n + length bytes < u64_mod
    → Invariant (n + length bytes) (record s { stream = (write s.stream bytes).0 })
write-Invariant s bytes i h =
    let v = i.0.streamed in
    let w = write_lem bytes v (omega arith) in
    (
      stream-IsValid s (write s.stream bytes).0 (write-IsValid bytes v (omega arith))
          (ap (λ p. p.0.bytes_read) w) i.0,
      omega (arith, ap (λ p. p.0.bytes_written) w),
    )

pub end_input-IsValid : (b : ByteStream) → Inv.IsValid b → Inv.IsValid (end_input b)
end_input-IsValid b v = record {
  counted = v.counted;
  within = v.within;
  capacity_fits = v.capacity_fits;
  balance = v.balance;
  written_fits = v.written_fits;
}

retransmit-Invariant :
    {n : ℕ} (s : TcpSender) (seg : TcpSegment) → Invariant n s → Invariant n (retransmit s seg)
unfolding retransmit
retransmit-Invariant {n} s seg i =
    elim (Bool-cases (ltb 0 s.receiver_window_size || seg.header.syn)) [
      | inl e ↦
          subst (λ c. Invariant n (if c then backed_off_once else again)) (sym e)
            (timed_as-Invariant s (s.segments_out ++ seg ∷ []) 0
              ((s.consecutive_retransmissions + 1) % u16_mod)
              ((s.applying_retransmission_timeout * 2) % u32_mod) i)
      | inr e ↦
          subst (λ c. Invariant n (if c then backed_off_once else again)) (sym e)
            (timed_as-Invariant s (s.segments_out ++ seg ∷ []) 0 s.consecutive_retransmissions
              s.applying_retransmission_timeout i)
    ]
  where
    again : TcpSender
    again = record s { segments_out = s.segments_out ++ seg ∷ []; last_tick_time = 0 }

    backed_off_once : TcpSender
    backed_off_once = record again {
      consecutive_retransmissions = (s.consecutive_retransmissions + 1) % u16_mod;
      applying_retransmission_timeout = (s.applying_retransmission_timeout * 2) % u32_mod;
    }

tick_at-Invariant :
    {n : ℕ} (s : TcpSender) (segs : List TcpSegment) → Invariant n s → Invariant n (tick_at s segs)
unfolding tick_at
tick_at-Invariant s [] i = i
tick_at-Invariant {n} s (front ∷ rest) i =
    elim (Bool-cases (leb s.applying_retransmission_timeout s.last_tick_time)) [
      | inl e ↦
          subst (λ c. Invariant n (if c then retransmit s front else s)) (sym e)
            (retransmit-Invariant s front i)
      | inr e ↦ subst (λ c. Invariant n (if c then retransmit s front else s)) (sym e) i
    ]

pub tick-Invariant : {n : ℕ} (s : TcpSender) (ms : ℕ) → Invariant n s → Invariant n (tick s ms)
unfolding tick
tick-Invariant {n} s ms i = elim (Bool-cases s.timing_begins) [
  | inl e ↦
      subst (λ c. Invariant n (if c then tick_at later s.outstanding_segments else s)) (sym e)
        (tick_at-Invariant later s.outstanding_segments (
          timed_as-Invariant s s.segments_out (add64 s.last_tick_time ms)
            s.consecutive_retransmissions s.applying_retransmission_timeout i))
  | inr e ↦
      subst (λ c. Invariant n (if c then tick_at later s.outstanding_segments else s)) (sym e) i
]
  where
    later : TcpSender
    later = record s { last_tick_time = add64 s.last_tick_time ms }
