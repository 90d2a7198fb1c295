-- ===== src/TcpConnection/Reset.antt =====
-- RST in tcp_connection.cc: giving up after too many retransmissions, and what follows a reset.
use mathlib.Core.Option
use tcp_implementation.Base.{
  ℕ, ◌+◌, ◌*◌, ◌<◌, ◌≤◌, ◌≡◌, ◌⊎◌, inl, inr, refl, ap, ◌∙◌, [], ◌∷◌, ◌++◌, append-nil, Bool, true,
  false, ◌||◌, not, some, arith, Bool-cases, ltb, leb, if◌then◌else◌, add64, u64_mod,
}
use tcp_implementation.WrappingIntegers.{wrap}
use tcp_implementation.ByteStream.{eof, buffer_empty}
use tcp_implementation.TcpSegment.{TcpSegment, default_segment}
use tcp_implementation.TcpSender
use tcp_implementation.TcpSender.{
  TcpSender, with_seqno, send_empty_segment, read_a_segment, tick_at,
}
use tcp_implementation.TcpConnection.{
  TcpConnection, segment_received, reset, abort, send_rst, check_done, tick, with_rst,
  max_retx_attempts, check_inbound_ended, check_outbound_ended,
}
use tcp_implementation.TcpConnection.Sending.{send_segments_out_lem, flushed}

-- The RST segment that a connection sends of itself.
abbrev pub rst_segment : TcpSender → TcpSegment
rst_segment s = with_rst (with_seqno default_segment (wrap s.next_seqno s.isn))

-- A connection whose sender has nothing queued.
abbrev unqueued : TcpConnection → TcpConnection
unqueued c = record c { sender = record (c.sender) { segments_out = [] } }

abort_lem :
    (c : TcpConnection)
    → abort (unqueued c)
      ≡ some (
          reset (record (unqueued c) {
            segments_out = c.segments_out ++ rst_segment c.sender ∷ [];
            last_tick_time = 0;
          }))
unfolding abort send_rst segment_received read_a_segment send_empty_segment
abort_lem c = refl

-- The connection in `tick`, with the segments of the sender sent.
abbrev ticked : TcpConnection → ℕ → TcpConnection
ticked c ms =
    let s = TcpSender.tick c.sender ms in
    flushed s.segments_out (record c { last_tick_time = add64 c.last_tick_time ms; sender = s })

tick_lem :
    (c : TcpConnection) (ms : ℕ)
    → tick c ms ≡ (
        if ltb max_retx_attempts (TcpSender.tick c.sender ms).consecutive_retransmissions
        then Option.map check_done (abort (record (ticked c ms) { segments_out = [] }))
        else some (check_done (ticked c ms)))
unfolding tick
tick_lem c ms =
    rw
      (send_segments_out_lem (record c {
        last_tick_time = add64 c.last_tick_time ms;
        sender = TcpSender.tick c.sender ms;
      }))
      refl

-- The connection that gave up.
abbrev pub given_up : TcpConnection → ℕ → TcpConnection
given_up c ms = reset (record (ticked c ms) {
  segments_out = rst_segment (TcpSender.tick c.sender ms) ∷ [];
  last_tick_time = 0;
})

check_done_in_flight : (c : TcpConnection) → 0 < c.sender.bytes_in_flight → check_done c ≡ c
unfolding check_done check_outbound_ended
check_done_in_flight c h = ground (arith, h)

-- Once `tick` has sent a segment again more often than the limit while bytes are in flight, the
-- connection gives up: all that is left to send is one RST, numbered with the next number to send
-- (tests/fsm_retx.cc expects the oldest number in flight); both streams are in error, and the
-- connection is not active.
pub tick_gives_up :
    (c : TcpConnection) (ms : ℕ)
    → max_retx_attempts < (TcpSender.tick c.sender ms).consecutive_retransmissions
    → 0 < (TcpSender.tick c.sender ms).bytes_in_flight
    → (c' : TcpConnection) × (tick c ms ≡ some c')
      × (c'.segments_out ≡ rst_segment (TcpSender.tick c.sender ms) ∷ [])
      × (c'.sender.stream.error ≡ true)
      × (c'.receiver.reassembler.output.error ≡ true)
      × (c'.active ≡ false)
unfolding reset
tick_gives_up c ms many flying =
    let stop = check_done_in_flight (given_up c ms) flying in
    (
      given_up c ms,
      tick_lem c ms
          ∙ ground (arith, many, abort_lem (record (ticked c ms) { segments_out = [] }), stop),
      refl,
      refl,
      refl,
      refl,
    )

-- `tick` of a sender that waits for nothing.
tick_idle :
    (s : TcpSender) (ms : ℕ)
    → s.outstanding_segments ≡ []
    → (n : ℕ) × (TcpSender.tick s ms ≡ record s { last_tick_time = n })
unfolding TcpSender.tick tick_at
tick_idle s ms e = elim (Bool-cases s.timing_begins) [
  | inl t ↦ (add64 s.last_tick_time ms, ground (arith, t, e))
  | inr t ↦ (s.last_tick_time, ground (arith, t))
]

check_done_lem :
    (c : TcpConnection)
    → check_inbound_ended c ≡ true
    → check_outbound_ended c ≡ true
    → check_done c ≡ record c {
      active =
          not (not c.linger_after_streams_finish || leb (10 * c.cfg.rt_timeout) c.last_tick_time);
    }
unfolding check_done
check_done_lem c i o = ground (arith, i, o)

-- Both streams have ended, and the sender waits for nothing.
pub record IsDone (c : TcpConnection) : Type 0 where
  pub inbound : check_inbound_ended c ≡ true
  pub outbound : check_outbound_ended c ≡ true
  pub idle : c.sender.outstanding_segments ≡ []
  pub unqueued : c.sender.segments_out ≡ []
  pub few : c.sender.consecutive_retransmissions ≤ max_retx_attempts

-- The connection a tick later, but for whether it is active.
abbrev later : TcpConnection → ℕ → ℕ → TcpConnection
later c ms n = record c {
  last_tick_time = c.last_tick_time + ms;
  sender = record (c.sender) { segments_out = []; last_tick_time = n };
}

ticked-later :
    (c : TcpConnection) (ms n : ℕ)
    → c.sender.segments_out ≡ []
    → c.last_tick_time + ms < u64_mod
    → TcpSender.tick c.sender ms ≡ record (c.sender) { last_tick_time = n }
    → ticked c ms ≡ later c ms n
ticked-later c ms n queue fits e =
    ap
      (λ s.
        flushed s.segments_out
          (record c { last_tick_time = add64 c.last_tick_time ms; sender = s }))
      e
    ∙ ground (arith, queue, fits, append-nil c.segments_out)

-- Whether a connection that is done goes on.
abbrev pub lingers : TcpConnection → Bool
lingers c = not (not c.linger_after_streams_finish || leb (10 * c.cfg.rt_timeout) c.last_tick_time)

later-IsDone :
    (c : TcpConnection) (ms n : ℕ) (active : Bool)
    → IsDone c
    → IsDone (record (later c ms n) { active = active })
unfolding check_inbound_ended check_outbound_ended
later-IsDone c ms n active d = record {
  inbound = d.inbound;
  outbound = d.outbound;
  idle = d.idle;
  unqueued = refl;
  few = d.few;
}

tick-IsDone :
    (c : TcpConnection) (ms : ℕ)
    → IsDone c
    → c.last_tick_time + ms < u64_mod
    → (n : ℕ) × (tick c ms ≡ some (record (later c ms n) { active = lingers (later c ms n) }))
tick-IsDone c ms d fits =
    let (n, e) = tick_idle c.sender ms d.idle in
    let done = later-IsDone c ms n c.active d in
    (
      n,
      tick_lem c ms
          ∙ ground (
            arith,
            e,
            d.few,
            ticked-later c ms n d.unqueued fits e,
            check_done_lem (later c ms n) done.inbound done.outbound,
          ),
    )

-- A connection whose two streams have ended, with nothing left in flight or to send: `tick` leaves
-- it active as long as it lingers and less than ten retransmission timeouts have passed since the
-- last segment came, and makes it inactive otherwise. It sends nothing, and is done as before.
pub tick_when_over :
    (c : TcpConnection) (ms : ℕ)
    → IsDone c
    → c.last_tick_time + ms < u64_mod
    → (c' : TcpConnection) × (tick c ms ≡ some c')
      × IsDone c'
      × (c'.segments_out ≡ c.segments_out)
      × (c'.last_tick_time ≡ c.last_tick_time + ms)
      × ((c'.active ≡ true)
            × (c.linger_after_streams_finish ≡ true)
            × (c.last_tick_time + ms < 10 * c.cfg.rt_timeout)
          ⊎ (c'.active ≡ false)
            × ((c.linger_after_streams_finish ≡ false)
                ⊎ (10 * c.cfg.rt_timeout ≤ c.last_tick_time + ms)))
tick_when_over c ms d fits =
    let (n, e) = tick-IsDone c ms d fits in
    (
      record (later c ms n) { active = lingers (later c ms n) },
      e,
      later-IsDone c ms n (lingers (later c ms n)) d,
      refl,
      refl,
      elim (Bool-cases c.linger_after_streams_finish) [
        | inr l ↦ inr (ground (arith, l), inl l)
        | inl l ↦ elim (Bool-cases (leb (10 * c.cfg.rt_timeout) (c.last_tick_time + ms))) [
          | inl t ↦ inr (ground (arith, l, t), inr (ground (arith, t)))
          | inr t ↦ inl (ground (arith, l, t), l, ground (arith, t))
        ]
      ],
    )

reset-IsDone : (c : TcpConnection) → IsDone c → IsDone (reset (record c { last_tick_time = 0 }))
unfolding reset check_inbound_ended check_outbound_ended eof buffer_empty
reset-IsDone c d = record {
  inbound = d.inbound;
  outbound = d.outbound;
  idle = d.idle;
  unqueued = d.unqueued;
  few = d.few;
}

-- A segment with RST makes a connection inactive. But if the connection lingers after both streams
-- have ended, the next `tick` within ten retransmission timeouts makes it active again.
pub tick_revives :
    (c : TcpConnection) (seg : TcpSegment) (ms : ℕ)
    → IsDone c
    → c.linger_after_streams_finish ≡ true
    → seg.header.rst ≡ true
    → ms < 10 * c.cfg.rt_timeout
    → ms < u64_mod
    → (c' c'' : TcpConnection) × (segment_received c seg ≡ some c')
      × (c'.active ≡ false)
      × (tick c' ms ≡ some c'')
      × (c''.active ≡ true)
unfolding segment_received reset
tick_revives c seg ms d lingering rst early fits =
    let c' = reset (record c { last_tick_time = 0 }) in
    let (n, e) = tick-IsDone c' ms (reset-IsDone c d) (omega arith) in
    (
      c',
      record (later c' ms n) { active = lingers (later c' ms n) },
      ground (arith, rst),
      refl,
      e,
      ground (arith, lingering, early),
    )
