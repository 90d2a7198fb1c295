-- ===== src/TcpConnection/Keeps.antt =====
-- The operations of tcp_connection.cc keep the invariant of the connection's sender.
use mathlib.Core.Path.{subst}
use tcp_implementation.Base.{
  ℕ, ◌+◌, ◌^◌, ◌<◌, ◌≡◌, refl, sym, List, [], ◌∷◌, ◌++◌, Bool, ◌&&◌, not, Option, none, some, arith,
  u16_mod, length, if◌then◌else◌, ltb, ◌==◌, add64, Bool-cases, inl, inr,
}
use mathlib.Core.Option
use tcp_implementation.ByteStream
use tcp_implementation.ByteStream.{ByteStream, eof, end_input, set_error}
use tcp_implementation.WrappingIntegers.{wrap}
use tcp_implementation.TcpSegment.{TcpSegment, default_segment, length_in_sequence_space}
use tcp_implementation.TcpReceiver
use tcp_implementation.TcpReceiver.{TcpReceiver}
use tcp_implementation.TcpSender
use tcp_implementation.TcpSender.{
  TcpSender, dequeue, with_seqno, fill_window, ack_received, send_empty_segment, read_a_segment,
}
use tcp_implementation.TcpSender.Keeps.{
  Invariant, timed_as-Invariant, stream-IsValid, write-Invariant, end_input-IsValid, tick-Invariant,
}
use tcp_implementation.TcpSender.Reach.{ack_received-Invariant, fill_window-Invariant}
use tcp_implementation.TcpConnection.{
  TcpConnection, send_segments_out, reset, stop_linger, take_ack, answer, check_inbound_ended,
  after_receiver, segment_received, write, with_rst, send_rst, abort, check_done, tick,
  end_input_stream, connect, destroy, max_retx_attempts, check_outbound_ended,
}
use tcp_implementation.TcpConnection.Sending.{send_segments_out_lem}

-- The invariant of the sender, where `n` bytes were offered, and that its queue was sent.
abbrev pub Sends : ℕ → TcpConnection → Type 0
Sends n c = Invariant n c.sender × (c.sender.segments_out ≡ [])

-- The senders whose queue differs.
queued-Invariant :
    {n : ℕ} (s : TcpSender) (out : List TcpSegment)
    → Invariant n s
    → Invariant n (record s { segments_out = out })
queued-Invariant s out i =
    timed_as-Invariant s out s.last_tick_time s.consecutive_retransmissions
      s.applying_retransmission_timeout i

-- What holds if there is a result.
abbrev pub IfAny : (TcpConnection → Type 0) → Option TcpConnection → Type 0
IfAny P none = Unit {0}
IfAny P (some c) = P c

map-IfAny :
    {A : Type 0} (P : TcpConnection → Type 0) (f : A → TcpConnection) (o : Option A)
    → ((a : A) → P (f a))
    → IfAny P (Option.map f o)
map-IfAny P f none h = tt
map-IfAny P f (some a) h = h a

send_segments_out-Sends :
    {n : ℕ} (c : TcpConnection) → Invariant n c.sender → Sends n (send_segments_out c).0
send_segments_out-Sends {n} c i =
    subst (λ p. Sends n p.0) (sym (send_segments_out_lem c)) (queued-Invariant c.sender [] i, refl)

send_empty_segment-Invariant :
    {n : ℕ} (s : TcpSender) → Invariant n s → Invariant n (send_empty_segment s)
unfolding send_empty_segment
send_empty_segment-Invariant s i = queued-Invariant s (send_empty_segment s).segments_out i

reset-Sends : {n : ℕ} (c : TcpConnection) → Sends n c → Sends n (reset c)
unfolding reset
reset-Sends c i =
    let v = i.0.0.streamed in
    let valid =
      stream-IsValid c.sender (set_error c.sender.stream)
        (record {
          counted = v.counted;
          within = v.within;
          capacity_fits = v.capacity_fits;
          balance = v.balance;
          written_fits = v.written_fits;
        })
        refl i.0.0 in
    ((valid, i.0.1), i.1)

stop_linger-Sends : {n : ℕ} (c : TcpConnection) → Sends n c → Sends n (stop_linger c)
unfolding stop_linger
stop_linger-Sends c i = elim (Bool-cases (check_inbound_ended c && not (eof c.sender.stream))) [
  | inl e ↦ rw e i
  | inr e ↦ rw e i
]

take_ack-Sends :
    {n : ℕ} (c : TcpConnection) (seg : TcpSegment)
    → n + 2 < 2 ^ 63
    → seg.header.win < u16_mod
    → Sends n c
    → Sends n (take_ack c seg)
unfolding take_ack
take_ack-Sends c seg h w i = elim (Bool-cases seg.header.ack) [
  | inl e ↦ rw e (
      send_segments_out-Sends
        (record c { sender = ack_received c.sender seg.header.ackno seg.header.win })
        (ack_received-Invariant c.sender seg.header.ackno seg.header.win w h i.0))
  | inr e ↦ rw e i
]

answer-Sends :
    {n : ℕ} (c : TcpConnection) (seg : TcpSegment)
    → n + 2 < 2 ^ 63
    → Sends n c
    → Sends n (answer c seg)
unfolding answer
answer-Sends {n} c seg h i = elim (Bool-cases (ltb 0 (length_in_sequence_space seg))) [
  | inl e ↦ elim (Bool-cases (send_segments_out filled).1) [
    | inl e' ↦ rw (e, e') filled_sends
    | inr e' ↦
        rw (e, e')
          (send_segments_out-Sends bare (send_empty_segment-Invariant sent.sender filled_sends.0))
  ]
  | inr e ↦ rw e i
]
  where
    filled : TcpConnection
    filled = record c { sender = fill_window c.sender }

    sent : TcpConnection
    sent = (send_segments_out filled).0

    bare : TcpConnection
    bare = record sent { sender = send_empty_segment sent.sender }

    filled_sends : Sends n sent
    filled_sends = send_segments_out-Sends filled (fill_window-Invariant c.sender h i.0)

after_receiver-Sends :
    {n : ℕ} (c : TcpConnection) (seg : TcpSegment)
    → n + 2 < 2 ^ 63
    → seg.header.win < u16_mod
    → Sends n c
    → Sends n (after_receiver c seg)
unfolding after_receiver
after_receiver-Sends c seg h w i =
    answer-Sends (take_ack (stop_linger c) seg) seg h
      (take_ack-Sends (stop_linger c) seg h w (stop_linger-Sends c i))

pub segment_received-Sends :
    {n : ℕ} (c : TcpConnection) (seg : TcpSegment)
    → n + 2 < 2 ^ 63
    → seg.header.win < u16_mod
    → Sends n c
    → IfAny (Sends n) (segment_received c seg)
unfolding segment_received
segment_received-Sends {n} c seg h w i = elim (Bool-cases seg.header.rst) [
  | inl e ↦ subst choice (sym e) (reset-Sends fresh i)
  | inr e ↦ subst choice (sym e) (
      map-IfAny (Sends n) (λ r. after_receiver (record fresh { receiver = r }) seg)
        (TcpReceiver.segment_received c.receiver seg)
        (λ r. after_receiver-Sends (record fresh { receiver = r }) seg h w i))
]
  where
    fresh : TcpConnection
    fresh = record c { last_tick_time = 0 }

    choice : Bool → Type 0
    choice is_rst = IfAny (Sends n) (
        if is_rst
        then some (reset fresh)
        else Option.map (λ r. after_receiver (record fresh { receiver = r }) seg)
            (TcpReceiver.segment_received c.receiver seg))

pub write-Sends :
    {n : ℕ} (c : TcpConnection) (bytes : List ℕ)
    → n + length bytes + 2 < 2 ^ 63
    → Sends n c
    → Sends (n + length bytes) (write c bytes).0
unfolding write
write-Sends {n} c bytes h i = elim (Bool-cases (length bytes == 0)) [
  | inl e ↦ rw e ((i.0.0, omega (arith, i.0.1)), i.1)
  | inr e ↦ rw e (
      send_segments_out-Sends (record c { sender = fill_window written })
        (fill_window-Invariant written h (write-Invariant c.sender bytes i.0 (omega (arith, h)))))
]
  where
    written : TcpSender
    written = record (c.sender) { stream = (ByteStream.write c.sender.stream bytes).0 }

pub connect-Sends : {n : ℕ} (c : TcpConnection) → n + 2 < 2 ^ 63 → Sends n c → Sends n (connect c)
unfolding connect
connect-Sends c h i =
    send_segments_out-Sends (record c { sender = fill_window c.sender })
      (fill_window-Invariant c.sender h i.0)

pub end_input_stream-Sends :
    {n : ℕ} (c : TcpConnection) → n + 2 < 2 ^ 63 → Sends n c → Sends n (end_input_stream c)
unfolding end_input_stream
end_input_stream-Sends c h i =
    let ended : TcpSender = record (c.sender) { stream = end_input c.sender.stream } in
    let valid =
      stream-IsValid c.sender (end_input c.sender.stream)
        (end_input-IsValid c.sender.stream i.0.0.streamed) refl i.0.0 in
    send_segments_out-Sends (record c { sender = fill_window ended })
      (fill_window-Invariant ended h (valid, i.0.1))

send_rst-Sends :
    {n : ℕ} (c : TcpConnection) (taken : Option (TcpSegment × TcpSender))
    → ((seg : TcpSegment) (s : TcpSender)
        → taken ≡ some (seg, s)
        → Invariant n s × (s.segments_out ≡ []))
    → IfAny (Sends n) (send_rst c taken)
unfolding send_rst segment_received
send_rst-Sends c none k = tt
send_rst-Sends c (some (seg, s)) k =
    let sent = c.segments_out ++ with_rst seg ∷ [] in
    reset-Sends (record c { sender = s; segments_out = sent; last_tick_time = 0 }) (k seg s refl)

-- The empty segment is all that the queue holds.
read_empty_segment_lem :
    (s s' : TcpSender) (seg : TcpSegment)
    → s.segments_out ≡ []
    → read_a_segment (send_empty_segment s) ≡ some (seg, s')
    → (s' ≡ record (send_empty_segment s) { segments_out = [] }) × (s'.segments_out ≡ [])
unfolding read_a_segment dequeue send_empty_segment
read_empty_segment_lem s s' seg q e =
    let front = with_seqno default_segment (wrap s.next_seqno s.isn) in
    let taken =
      subst (λ l. dequeue (send_empty_segment s) (l ++ front ∷ []) ≡ some (seg, s')) q e in
    (ground (arith, taken), ground (arith, taken))

abort-Sends : {n : ℕ} (c : TcpConnection) → Sends n c → IfAny (Sends n) (abort c)
unfolding abort
abort-Sends {n} c i =
    let s = send_empty_segment c.sender in
    send_rst-Sends c (read_a_segment s) (λ seg s' e.
      let (same, empty) = read_empty_segment_lem c.sender s' seg i.1 e in
      (
        subst (Invariant n) (sym same)
            (queued-Invariant s [] (send_empty_segment-Invariant c.sender i.0)),
        empty,
      ))

check_done-Sends : {n : ℕ} (c : TcpConnection) → Sends n c → Sends n (check_done c)
unfolding check_done
check_done-Sends c i = elim (Bool-cases (check_inbound_ended c && check_outbound_ended c)) [
  | inl e ↦ rw e i
  | inr e ↦ rw e i
]

done-Sends :
    (n : ℕ) (o : Option TcpConnection)
    → IfAny (Sends n) o
    → IfAny (Sends n) (Option.map check_done o)
done-Sends n none i = tt
done-Sends n (some c) i = check_done-Sends c i

pub tick-Sends : {n : ℕ} (c : TcpConnection) (ms : ℕ) → Sends n c → IfAny (Sends n) (tick c ms)
unfolding tick
tick-Sends {n} c ms i =
    elim (Bool-cases (ltb max_retx_attempts later.sender.consecutive_retransmissions)) [
      | inl e ↦ rw e (
          done-Sends n (abort (record later { segments_out = [] }))
            (abort-Sends (record later { segments_out = [] }) later_sends))
      | inr e ↦ rw e (check_done-Sends later later_sends)
    ]
  where
    begun : TcpConnection
    begun = record c {
      last_tick_time = add64 c.last_tick_time ms;
      sender = TcpSender.tick c.sender ms;
    }

    later : TcpConnection
    later = (send_segments_out begun).0

    later_sends : Sends n later
    later_sends = send_segments_out-Sends begun (tick-Invariant c.sender ms i.0)

pub destroy-Sends : {n : ℕ} (c : TcpConnection) → Sends n c → IfAny (Sends n) (destroy c)
unfolding destroy
destroy-Sends {n} c i = elim (Bool-cases c.active) [
  | inl e ↦ subst choice (sym e) (abort-Sends c i)
  | inr e ↦ subst choice (sym e) i
]
  where
    choice : Bool → Type 0
    choice is_active = IfAny (Sends n) (if is_active then abort c else some c)
