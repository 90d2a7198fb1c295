-- ===== src/TcpState/Summary.antt =====
-- What the summaries of tcp_state.cc say of a sender and of a connection.
use tcp_implementation.Base.{
  some, ◌+◌, ◌<◌, ◌≡◌, ◌⊎◌, inl, inr, refl, true, false, arith, u64_mod, Bool-cases, length,
}
use tcp_implementation.ByteStream.{ByteStream, eof, buffer_empty}
use tcp_implementation.WrappingIntegers.{WrappingInt32}
use tcp_implementation.TcpSegment.{TcpSegment, length_in_sequence_space}
use tcp_implementation.TcpReceiver
use tcp_implementation.TcpSender
use tcp_implementation.TcpSender.{TcpSender}
use tcp_implementation.TcpSender.Inv.{IsValid}
use tcp_implementation.TcpSender.Window.{zero-cases}
use tcp_implementation.TcpConnection.{TcpConfig, new, connect, TcpConnection, segment_received}
use tcp_implementation.TcpConnection
use tcp_implementation.TcpState
use tcp_implementation.TcpState.{
  SenderSummary, ReceiverSummary, State, official, sender_summary, receiver_summary, summarized,
  state, error, syn_acked, fin_sent, fin_acked,
}

eof-drained : (b : ByteStream) → eof b ≡ true → b.buffer_size ≡ length b.stream → b.buffer_size ≡ 0
unfolding eof buffer_empty
eof-drained b e c = ground (arith, e, c)

-- At the end of its stream, with its SYN acknowledged, a valid sender is summed up by whether FIN
-- was sent and whether anything is in flight.
pub sender_summary_at_end :
    (s : TcpSender)
    → IsValid s
    → s.stream.error ≡ false
    → eof s.stream ≡ true
    → 0 < s.next_seqno
    → s.bytes_in_flight < s.next_seqno
    → s.stream.bytes_written + 2 < u64_mod
    → (sender_summary s ≡ syn_acked) × (s.fin_sent ≡ false)
      ⊎ (sender_summary s ≡ fin_sent) × (s.fin_sent ≡ true) × (0 < s.bytes_in_flight)
      ⊎ (sender_summary s ≡ fin_acked) × (s.fin_sent ≡ true) × (s.bytes_in_flight ≡ 0)
unfolding sender_summary
sender_summary_at_end s v sound ended begun acked fits =
    let drained = eof-drained s.stream ended v.streamed.counted in
    elim v.accounted [
      | inl z ↦ absurd (omega arith)
      | inr e ↦ elim (Bool-cases s.fin_sent) [
        | inr f ↦ inl (ground (arith, sound, ended, f, e, drained, v.streamed.balance), f)
        | inl f ↦ inr (elim (zero-cases s.bytes_in_flight) [
          | inl z ↦ inr (ground (arith, sound, ended, f, e, drained, z, v.streamed.balance), f, z)
          | inr p ↦ inl (ground (arith, sound, ended, f, e, drained, p, v.streamed.balance), f, p)
        ])
      ]
    ]

-- Any segment with RST brings a connection, in whatever state, to the official state RESET, and it
-- sends nothing for it: also one out of the window, one in LISTEN, and one with a bad acknowledgment in
-- SYN_SENT, which tests/fsm_ack_rst.cc wants ignored.
pub segment_received-reset :
    (c : TcpConnection) (seg : TcpSegment)
    → seg.header.rst ≡ true
    → (c' : TcpConnection) × (segment_received c seg ≡ some c')
      × (state c' ≡ official TcpState.reset)
      × (c'.segments_out ≡ c.segments_out)
unfolding segment_received TcpConnection.reset state sender_summary receiver_summary
segment_received-reset c seg rst =
    (TcpConnection.reset (record c { last_tick_time = 0 }), ground (arith, rst), refl, refl)

-- A new connection is in the official state LISTEN, and `connect` brings it to SYN_SENT.
pub connect_syn_sent :
    (cfg : TcpConfig) (drawn : WrappingInt32)
    → (state (new cfg drawn) ≡ official TcpState.listen)
      × (state (connect (new cfg drawn)) ≡ official TcpState.syn_sent)
unfolding new connect state sender_summary receiver_summary TcpSender.new TcpReceiver.new
    TcpReceiver.ackno TcpConnection.send_segments_out TcpConnection.send_loop TcpSender.fill_window
    TcpSender.send_tcp_segment length_in_sequence_space
connect_syn_sent cfg drawn = (refl, refl)
