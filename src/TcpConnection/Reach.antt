-- ===== src/TcpConnection/Reach.antt =====
-- The connections that any sequence of the operations of tcp_connection.cc leads to.
use mathlib.Core.Path.{subst}
use mathlib.Core.Option
use tcp_implementation.Base.{
  ℕ, ◌+◌, ◌^◌, ◌<◌, ◌≡◌, refl, List, [], some, arith, u64_mod, u32_mod, u16_mod, length,
}
use tcp_implementation.WrappingIntegers.{WrappingInt32}
use tcp_implementation.TcpSegment.{TcpSegment}
use tcp_implementation.TcpSender
use tcp_implementation.TcpSender.Inv.{IsValid}
use tcp_implementation.TcpSender.Keeps.{new-Invariant}
use tcp_implementation.TcpConnection.{
  TcpConfig, TcpConnection, new, connect, write, end_input_stream, segment_received, tick, destroy,
}
use tcp_implementation.TcpConnection.Keeps.{
  Sends, IfAny, write-Sends, connect-Sends, end_input_stream-Sends, segment_received-Sends,
  tick-Sends, destroy-Sends,
}

-- `Reach offered c`: the operations lead to `c`, and `offered` bytes were passed to `write`. Whoever
-- runs the connection takes segments from its queue.
pub data Reach (cfg : TcpConfig) (drawn : WrappingInt32) : ℕ → TcpConnection → Type 0 where
  start : Reach cfg drawn 0 (new cfg drawn)
  connects : {n : ℕ} {c : TcpConnection} → Reach cfg drawn n c → Reach cfg drawn n (connect c)
  writes :
      {n : ℕ} {c : TcpConnection} (bytes : List ℕ)
      → Reach cfg drawn n c
      → Reach cfg drawn (n + length bytes) (write c bytes).0
  ends_input :
      {n : ℕ} {c : TcpConnection} → Reach cfg drawn n c → Reach cfg drawn n (end_input_stream c)
  receives :
      {n : ℕ} {c c' : TcpConnection} (seg : TcpSegment)
      → seg.header.win < u16_mod
      → segment_received c seg ≡ some c'
      → Reach cfg drawn n c
      → Reach cfg drawn n c'
  ticked :
      {n : ℕ} {c c' : TcpConnection} (ms : ℕ)
      → tick c ms ≡ some c'
      → Reach cfg drawn n c
      → Reach cfg drawn n c'
  destroyed :
      {n : ℕ} {c c' : TcpConnection}
      → destroy c ≡ some c'
      → Reach cfg drawn n c
      → Reach cfg drawn n c'
  taken :
      {n : ℕ} {c : TcpConnection} (left : List TcpSegment)
      → Reach cfg drawn n c
      → Reach cfg drawn n (record c { segments_out = left })

module _ (cfg : TcpConfig) (drawn : WrappingInt32) (hc : cfg.send_capacity < u64_mod)
    (hi : (Option.get_or cfg.fixed_isn drawn).raw_value < u32_mod) where
  pub Reach-Sends : {n : ℕ} {c : TcpConnection} → n + 2 < 2 ^ 63 → Reach cfg drawn n c → Sends n c
  unfolding new TcpSender.new
  Reach-Sends h start = (
    new-Invariant cfg.send_capacity cfg.rt_timeout (Option.get_or cfg.fixed_isn drawn) hc hi,
    refl,
  )
  Reach-Sends h (connects {n} {c} r) = connect-Sends c h (Reach-Sends h r)
  Reach-Sends h (writes {n} {c} bytes r) = write-Sends c bytes h (Reach-Sends (omega (arith, h)) r)
  Reach-Sends h (ends_input {n} {c} r) = end_input_stream-Sends c h (Reach-Sends h r)
  Reach-Sends h (receives {n} {c} {c'} seg w e r) =
      subst (IfAny (Sends n)) e (segment_received-Sends c seg h w (Reach-Sends h r))
  Reach-Sends h (ticked {n} {c} {c'} ms e r) =
      subst (IfAny (Sends n)) e (tick-Sends c ms (Reach-Sends h r))
  Reach-Sends h (destroyed {n} {c} {c'} e r) =
      subst (IfAny (Sends n)) e (destroy-Sends c (Reach-Sends h r))
  Reach-Sends h (taken {n} {c} left r) = Reach-Sends h r

  -- In every connection that its operations lead to, from a new one on, the sender's invariant holds:
  -- its outstanding segments are what `bytes_in_flight` counts, are numbered one after another up to
  -- the next number and lie within 65535 of the acknowledged one, and the next number counts SYN, the
  -- bytes read from the stream, and FIN; and nothing is left in the sender's queue. The windows that
  -- arrive, the capacity and the initial number fit their words, and the writer offers less than
  -- 2^63 - 2 bytes in all.
  pub Reach-sender :
      {n : ℕ} {c : TcpConnection}
      → n + 2 < 2 ^ 63
      → Reach cfg drawn n c
      → IsValid c.sender × (c.sender.segments_out ≡ [])
  Reach-sender h r = let s = Reach-Sends h r in (s.0.0, s.1)
