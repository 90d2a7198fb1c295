-- ===== src/TcpConnection/Sending.antt =====
-- What tcp_connection.cc sends: `send_segments_out`, and the answers to segments.
use mathlib.Core.Path.{subst}
use tcp_implementation.Base.{
  ◌<◌, ◌≡◌, ◌⊎◌, inl, inr, refl, sym, ap, ◌∙◌, List, [], ◌∷◌, ◌++◌, map, append-nil, append_assoc,
  Bool, true, false, ◌&&◌, ◌||◌, not, some, arith, length, length-append, All, Bool-cases,
  if◌then◌else◌,
}
use tcp_implementation.WrappingIntegers.{WrappingInt32, wrap}
use tcp_implementation.ByteStream.{eof}
use tcp_implementation.TcpSegment.{TcpSegment, default_segment, length_in_sequence_space}
use tcp_implementation.TcpReceiver
use tcp_implementation.TcpReceiver.{TcpReceiver, ackno}
use tcp_implementation.TcpSender.{
  with_seqno, TcpSender, is_empty, fill_window, send_empty_segment, ack_received,
}
use tcp_implementation.TcpConnection.{
  TcpConnection, stamped, send_loop, send_segments_out, stop_linger, take_ack, answer,
  check_inbound_ended, after_receiver, segment_received,
}

map-stamped-append :
    (f : TcpSegment → TcpSegment) (xs ys : List TcpSegment)
    → map f (xs ++ ys) ≡ map f xs ++ map f ys
map-stamped-append f [] ys = refl
map-stamped-append f (x ∷ xs) ys = ap (λ l. f x ∷ l) (map-stamped-append f xs ys)

-- A connection with its sender's queue sent.
abbrev pub flushed : List TcpSegment → TcpConnection → TcpConnection
flushed queue c = record c {
  sender = record (c.sender) { segments_out = [] };
  segments_out = c.segments_out ++ map (stamped c.receiver) queue;
}

send_loop_lem :
    (queue : List TcpSegment) (has_sent : Bool) (c : TcpConnection)
    → c.sender.segments_out ≡ queue
    → send_loop queue has_sent c ≡ (flushed queue c, has_sent || not (is_empty queue))
unfolding send_loop
send_loop_lem [] has_sent c e = ground (arith, e, append-nil c.segments_out)
send_loop_lem (seg ∷ rest) has_sent c e =
    let next = record c {
      sender = record (c.sender) { segments_out = rest };
      segments_out = c.segments_out ++ stamped c.receiver seg ∷ [];
    } in
    send_loop_lem rest true next refl
    ∙ ground (
      arith,
      append_assoc c.segments_out (stamped c.receiver seg ∷ []) (map (stamped c.receiver) rest),
    )

-- `send_segments_out` sends all that the sender queued, in order, each with the acknowledgment
-- number and the window, and says whether there was anything.
pub send_segments_out_lem :
    (c : TcpConnection)
    → send_segments_out c ≡ (flushed c.sender.segments_out c, not (is_empty c.sender.segments_out))
unfolding send_segments_out
send_segments_out_lem c = send_loop_lem c.sender.segments_out false c refl

-- `c'` comes of `c` by sending the segments `out`, with the receiver as it is.
pub record Sent (out : List TcpSegment) (c c' : TcpConnection) : Type 0 where
  pub receiver : c'.receiver ≡ c.receiver
  pub queue : c'.segments_out ≡ c.segments_out ++ map (stamped c.receiver) out

Sent-none : (c : TcpConnection) → Sent [] c c
Sent-none c = record { receiver = refl; queue = sym (append-nil c.segments_out) }

Sent-append :
    {out out' : List TcpSegment} {c c' c'' : TcpConnection}
    → Sent out c c'
    → Sent out' c' c''
    → Sent (out ++ out') c c''
Sent-append {out} {out'} {c} {c'} {c''} s s' = record {
  receiver = s'.receiver ∙ s.receiver;
  queue =
      s'.queue
      ∙ ap (λ r. c'.segments_out ++ map (stamped r) out') s.receiver
      ∙ ap (λ l. l ++ map (stamped c.receiver) out') s.queue
      ∙ append_assoc c.segments_out (map (stamped c.receiver) out) (map (stamped c.receiver) out')
      ∙ ap (λ l. c.segments_out ++ l) (sym (map-stamped-append (stamped c.receiver) out out'));
}

-- The sender moves on, and what it queues is sent.
send_segments_out-Sent :
    (c : TcpConnection) (s : TcpSender)
    → Sent s.segments_out c (send_segments_out (record c { sender = s })).0
send_segments_out-Sent c s =
    rw (send_segments_out_lem (record c { sender = s })) (record { receiver = refl; queue = refl })

stop_linger-Sent : (c : TcpConnection) → Sent [] c (stop_linger c)
unfolding stop_linger
stop_linger-Sent c = elim (Bool-cases (check_inbound_ended c && not (eof c.sender.stream))) [
  | inl e ↦
      subst (λ b. Sent [] c (if b then record c { linger_after_streams_finish = false } else c))
        (sym e) (record { receiver = refl; queue = sym (append-nil c.segments_out) })
  | inr e ↦
      subst (λ b. Sent [] c (if b then record c { linger_after_streams_finish = false } else c))
        (sym e) (Sent-none c)
]

take_ack-Sent :
    (c : TcpConnection) (seg : TcpSegment) → (out : List TcpSegment) × Sent out c (take_ack c seg)
unfolding take_ack
take_ack-Sent c seg =
    let s = ack_received c.sender seg.header.ackno seg.header.win in
    let sent = (send_segments_out (record c { sender = s })).0 in
    elim (Bool-cases seg.header.ack) [
      | inl e ↦ (
        s.segments_out,
        subst (λ b. Sent s.segments_out c (if b then sent else c)) (sym e)
            (send_segments_out-Sent c s),
      )
      | inr e ↦ ([], subst (λ b. Sent [] c (if b then sent else c)) (sym e) (Sent-none c))
    ]

-- The connection after the first call of `send_segments_out` of an answer.
abbrev filled : TcpConnection → TcpConnection
filled c = (send_segments_out (record c { sender = fill_window c.sender })).0

answer_cases :
    (c : TcpConnection) (seg : TcpSegment)
    → 0 < length_in_sequence_space seg
    → (answer c seg ≡ filled c) × (is_empty (fill_window c.sender).segments_out ≡ false)
      ⊎ (answer c seg
          ≡ (send_segments_out
              (record (filled c) { sender = send_empty_segment (filled c).sender })).0)
unfolding answer
answer_cases c seg h =
    let is_sent =
      ap (λ p. p.1) (send_segments_out_lem (record c { sender = fill_window c.sender })) in
    elim (Bool-cases (is_empty (fill_window c.sender).segments_out)) [
      | inl e ↦ inr (ground (arith, h, e, is_sent))
      | inr e ↦ inl (ground (arith, h, e, is_sent), e)
    ]

not_empty-length : (xs : List TcpSegment) → is_empty xs ≡ false → 0 < length xs
not_empty-length [] e = absurd (ground (arith, e))
not_empty-length (x ∷ xs) e = omega arith

append-pos : (xs : List TcpSegment) (x : TcpSegment) → 0 < length (xs ++ x ∷ [])
append-pos xs x = omega (arith, length-append xs (x ∷ []))

length-map : (f : TcpSegment → TcpSegment) (xs : List TcpSegment) → length (map f xs) ≡ length xs
length-map f [] = refl
length-map f (x ∷ xs) = omega (arith, length-map f xs)

length-send_empty_segment : (s : TcpSender) → 0 < length (send_empty_segment s).segments_out
unfolding send_empty_segment
length-send_empty_segment s =
    append-pos s.segments_out (with_seqno default_segment (wrap s.next_seqno s.isn))

answer-Sent :
    (c : TcpConnection) (seg : TcpSegment)
    → 0 < length_in_sequence_space seg
    → (out : List TcpSegment) × (0 < length out) × Sent out c (answer c seg)
answer-Sent c seg h =
    let s = fill_window c.sender in
    let first = send_segments_out-Sent c s in
    elim (answer_cases c seg h) [
      | inl p ↦ (s.segments_out, not_empty-length s.segments_out p.1, rw (p.0) first)
      | inr e ↦
          let s' = send_empty_segment (filled c).sender in
          (
            s.segments_out ++ s'.segments_out,
            omega (
              arith,
              length-append s.segments_out s'.segments_out,
              length-send_empty_segment (filled c).sender,
            ),
            rw e (Sent-append first (send_segments_out-Sent (filled c) s')),
          )
    ]

-- A segment with the receiver's acknowledgment number.
abbrev pub Acknowledges : WrappingInt32 → TcpSegment → Type 0
Acknowledges n seg = (seg.header.ack ≡ true) × (seg.header.ackno ≡ n)

map-stamped-Acknowledges :
    (r : TcpReceiver) (n : WrappingInt32) (segs : List TcpSegment)
    → ackno r ≡ some n
    → All (Acknowledges n) (map (stamped r) segs)
unfolding stamped
map-stamped-Acknowledges r n [] e = tt
map-stamped-Acknowledges r n (seg ∷ segs) e =
    (rw e (refl, refl), map-stamped-Acknowledges r n segs e)

segment_received_lem :
    (c : TcpConnection) (seg : TcpSegment) (r : TcpReceiver)
    → seg.header.rst ≡ false
    → TcpReceiver.segment_received c.receiver seg ≡ some r
    → segment_received c seg
      ≡ some (after_receiver (record c { last_tick_time = 0; receiver = r }) seg)
unfolding segment_received
segment_received_lem c seg r e h = ground (arith, e, h)

-- A segment that takes sequence numbers (SYN, FIN or data) is answered at once: if it has no RST
-- and the receiver returns with an acknowledgment number, the connection sends one segment or
-- more, and all that it sends acknowledge what the receiver then has.
pub segment_received_answers :
    (c : TcpConnection) (seg : TcpSegment) (r : TcpReceiver) (n : WrappingInt32)
    → seg.header.rst ≡ false
    → TcpReceiver.segment_received c.receiver seg ≡ some r
    → ackno r ≡ some n
    → 0 < length_in_sequence_space seg
    → (c' : TcpConnection) × (out : List TcpSegment) × (segment_received c seg ≡ some c')
      × (c'.segments_out ≡ c.segments_out ++ out)
      × (0 < length out)
      × All (Acknowledges n) out
unfolding after_receiver
segment_received_answers c seg r n unreset received acked h =
    let fresh = record c { last_tick_time = 0; receiver = r } in
    let lingered = stop_linger-Sent fresh in
    let (out, taken) = take_ack-Sent (stop_linger fresh) seg in
    let (out', pos, answered) = answer-Sent (take_ack (stop_linger fresh) seg) seg h in
    let sent = Sent-append lingered (Sent-append taken answered) in
    (
      after_receiver fresh seg,
      map (stamped r) (out ++ out'),
      segment_received_lem c seg r unreset received,
      sent.queue,
      omega (arith, length-map (stamped r) (out ++ out'), length-append out out', pos),
      map-stamped-Acknowledges r n (out ++ out') acked,
    )
