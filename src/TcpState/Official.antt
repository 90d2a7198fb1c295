-- ===== src/TcpState/Official.antt =====
-- The official states of tcp_state.cc: their summaries tell them apart.
use tcp_implementation.Base.{◌≡◌, refl, sym, ap, ◌∙◌, Bool, if◌then◌else◌}
use tcp_implementation.TcpState.{
  SenderSummary, ReceiverSummary, State, TcpState, official, error, listen, syn_recv, fin_recv,
  closed, syn_sent, syn_acked, fin_sent, fin_acked, syn_rcvd, established, close_wait, last_ack,
  fin_wait_1, fin_wait_2, closing, time_wait, reset,
}

-- What a receiver's summary makes of two candidates: the second if the stream has ended.
by_receiver : ReceiverSummary → State → State → State
by_receiver error a b = a
by_receiver listen a b = a
by_receiver syn_recv a b = a
by_receiver fin_recv a b = b

of_sender : SenderSummary → ReceiverSummary → Bool → Bool → State
of_sender error r active linger = reset
of_sender closed r active linger = listen
of_sender syn_sent error active linger = syn_sent
of_sender syn_sent listen active linger = syn_sent
of_sender syn_sent syn_recv active linger = syn_rcvd
of_sender syn_sent fin_recv active linger = syn_rcvd
of_sender syn_acked r active linger = by_receiver r established close_wait
of_sender fin_sent r active linger = by_receiver r fin_wait_1 (if linger then closing else last_ack)
of_sender fin_acked r active linger =
    by_receiver r fin_wait_2 (if active then time_wait else closed)

named : TcpState → State
unfolding by_receiver of_sender
named t = of_sender t.sender t.receiver t.active t.linger_after_streams_finish

named-official : (s : State) → named (official s) ≡ s
unfolding named
named-official listen = refl
named-official syn_rcvd = refl
named-official syn_sent = refl
named-official established = refl
named-official close_wait = refl
named-official last_ack = refl
named-official fin_wait_1 = refl
named-official fin_wait_2 = refl
named-official closing = refl
named-official time_wait = refl
named-official closed = refl
named-official reset = refl

-- Two official states with the same summary are the same state.
pub official_injective : (s t : State) → official s ≡ official t → s ≡ t
official_injective s t e = sym (named-official s) ∙ ap named e ∙ named-official t
