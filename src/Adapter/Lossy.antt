-- ===== src/Adapter/Lossy.antt =====
-- `LossyFdAdapter` of libsponge/tcp_helpers/lossy_fd_adapter.hh, over any adapter and any generator of
-- random numbers.
use tcp_implementation.Base.{
  ℕ, ◌%◌, ◌≡◌, ◌⊎◌, arith, Bool, true, false, ◌==◌, ltb, List, [], Option, none, some,
  if◌then◌else◌, ◌>>=◌, u16_mod,
}
use tcp_implementation.TcpSegment.{TcpSegment}
use tcp_implementation.Adapter.{AdapterOps}

-- `class LossyFdAdapter`.
pub record LossyFdAdapter (A G : Type 0) : Type 0 where
  pub rand : G
  pub adapter : A

module _ {A Input Output G : Type 0} (ops : AdapterOps A Input Output) (draw : G → ℕ × G) where
  -- `_should_drop(uplink)`: the generator is asked only where segments get lost.
  unfoldable pub should_drop : LossyFdAdapter A G → Bool → Bool × LossyFdAdapter A G
  should_drop l uplink =
      let cfg = ops.config l.adapter in
      let loss = if uplink then cfg.loss_rate_up else cfg.loss_rate_dn in
      let (number, rand) = draw l.rand in
      if loss == 0 then (false, l) else (ltb (number % u16_mod) loss, record l { rand = rand })

  -- `read()`.
  unfoldable pub lossy_read : LossyFdAdapter A G → Input → LossyFdAdapter A G × Option TcpSegment
  lossy_read l input =
      let (adapter, ret) = ops.read l.adapter input in
      let (drop, l) = should_drop (record l { adapter = adapter }) false in
      (l, (if drop then none else ret))

  -- `write(seg)`.
  unfoldable pub lossy_write :
      LossyFdAdapter A G → TcpSegment → Option (LossyFdAdapter A G × TcpSegment × List Output)
  lossy_write l seg =
      let (drop, l) = should_drop l true in
      if drop
      then some (l, seg, [])
      else do w ← ops.write l.adapter seg; some (record l { adapter = w.0 }, w.1, w.2)

  -- With a loss rate of zero down the adapter reads what the one below it reads, and the generator is
  -- left alone.
  pub lossy_read_lossless :
      (l : LossyFdAdapter A G) (input : Input)
      → let r = ops.read l.adapter input in
        (ops.config r.0).loss_rate_dn ≡ 0 → lossy_read l input ≡ (record l { adapter = r.0 }, r.1)
  unfolding lossy_read should_drop
  lossy_read_lossless l input none_lost = ground (arith, none_lost)

  -- A read gives what the adapter below gives or nothing, and the adapter below has read either way.
  pub lossy_read_or_drop :
      (l : LossyFdAdapter A G) (input : Input)
      → let r = ops.read l.adapter input in
        let l' = lossy_read l input in (l'.0.adapter ≡ r.0) × ((l'.1 ≡ r.1) ⊎ (l'.1 ≡ none))
  unfolding lossy_read should_drop
  lossy_read_or_drop l input = ground arith
