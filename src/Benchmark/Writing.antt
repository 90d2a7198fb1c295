-- ===== src/Benchmark/Writing.antt =====
-- The loop of tcp_benchmark.cc that writes into the connection.
use mathlib.Core.Path.{subst}
use tcp_implementation.Base.{
  ℕ, zero, suc, ◌+◌, ◌^◌, ◌≤◌, ◌<◌, ◌≡◌, ◌⊎◌, inl, inr, refl, ap, ◌∙◌, true, ◌||◌, List, [], sym,
  ◌==◌, length, take, take-add, ◌++◌, drop, min, arith, u64_mod, u32_mod, length-take, length-drop,
  drop-add, Bool-cases,
}
use mathlib.Core.Option
use tcp_implementation.WrappingIntegers.{WrappingInt32}
use tcp_implementation.TcpConnection
use tcp_implementation.TcpConnection.{TcpConfig, TcpConnection}
use tcp_implementation.TcpConnection.Reach.{Reach, Reach-Sends}
use tcp_implementation.TcpSocket.{remaining_outbound_capacity}
use tcp_implementation.TcpSocket.Rules.{write_accepts}
use tcp_implementation.Benchmark.{Feeding, fed, feed, write_input}

-- `Feeds x bytes x'`: calls of `write` lead from `x` to `x'`, each of which the connection accepts whole,
-- and what they write is `bytes`, one after the other.
pub data Feeds : TcpConnection → List ℕ → TcpConnection → Type 0 where
  no_more : (x : TcpConnection) → Feeds x [] x
  writes :
      (x x' : TcpConnection) (front rest : List ℕ)
      → (TcpConnection.write x front).1 ≡ length front
      → Feeds (TcpConnection.write x front).0 rest x'
      → Feeds x (front ++ rest) x'

module _ (cfg : TcpConfig) (drawn : WrappingInt32) (hc : cfg.send_capacity < u64_mod)
    (hi : (Option.get_or cfg.fixed_isn drawn).raw_value < u32_mod) where
  -- The loop ends with the front of the bytes written, all of them or as many as there is room for.
  abbrev pub Ends : ℕ → TcpConnection → List ℕ → Feeding → Type 0
  Ends n x bytes f =
      (x' : TcpConnection) × (m : ℕ) × (f ≡ fed x' (drop m bytes))
      × (m ≤ length bytes)
      × ((m ≡ length bytes) ⊎ (remaining_outbound_capacity x' ≡ 0))
      × Feeds x (take m bytes) x'
      × Reach cfg drawn (n + m) x'

  -- The rounds after the first, which wrote `want` bytes.
  more :
      (n want : ℕ) (x : TcpConnection) (bytes : List ℕ) (k : ℕ) (f : Feeding)
      → k ≡ want
      → want ≤ length bytes
      → (TcpConnection.write x (take want bytes)).1 ≡ length (take want bytes)
      → Ends (n + k) (TcpConnection.write x (take want bytes)).0 (drop want bytes) f
      → Ends n x bytes f
  more n want x bytes k f cut inside accepted (x', m, ends, within, why, fed_rest, reached) =
      let left = length-drop want bytes in
      let sum : n + k + m ≡ n + (want + m) = omega (arith, cut) in
      (
        x',
        want + m,
        ends ∙ ap (fed x') (drop-add want m (want + m) bytes refl),
        omega (arith, within, left),
        elim why [ inl whole ↦ inl (omega (arith, whole, left)) | inr full ↦ inr full ],
        rw (take-add want m (want + m) bytes refl)
            (writes x x' (take want bytes) (take m (drop want bytes)) accepted fed_rest),
        subst (λ j. Reach cfg drawn j x') sum reached,
      )

  feed-Ends :
      (fuel n : ℕ) (x : TcpConnection) (bytes : List ℕ)
      → length bytes < fuel
      → n + length bytes + 2 < 2 ^ 63
      → Reach cfg drawn n x
      → Ends n x bytes (feed fuel x bytes)
  unfolding feed
  feed-Ends zero n x bytes enough h r = absurd (omega (arith, enough))
  feed-Ends (suc fuel) n x bytes enough h r =
      elim (Bool-cases (length bytes == 0 || remaining_outbound_capacity x == 0)) [
        | inl e ↦
            let none_yet : n ≡ n + 0 = omega arith in
            rw e (
              x,
              0,
              refl,
              omega arith,
              stops e,
              no_more x,
              subst (λ k. Reach cfg drawn k x) none_yet r,
            )
        | inr e ↦
            let positive : 0 < want = ground (arith, e) in
            let left = length-drop want bytes in
            rw (e, all, same)
              (more n want x bytes (length front) (feed fuel written (drop want bytes)) cut
                (omega arith) (all ∙ sym cut)
                (feed-Ends fuel (n + length front) written (drop want bytes)
                  (omega (arith, enough, positive, left)) (omega (arith, h, cut, left))
                  (Reach.writes front r)))
      ]
    where
      want : ℕ
      want = min (remaining_outbound_capacity x) (length bytes)

      front : List ℕ
      front = take want bytes

      written : TcpConnection
      written = (TcpConnection.write x front).0

      cut : length front ≡ want
      cut = omega (arith, length-take want bytes)

      all : (TcpConnection.write x front).1 ≡ want
      all =
          let s = Reach-Sends cfg drawn hc hi (omega (arith, h)) r in
          write_accepts x front s.0.0.streamed (omega (arith, h, cut, s.0.1)) (omega (arith, cut))
          ∙ cut

      same : (want == want) ≡ true
      same = ground arith

      stops :
          (length bytes == 0 || remaining_outbound_capacity x == 0) ≡ true
          → (0 ≡ length bytes) ⊎ (remaining_outbound_capacity x ≡ 0)
      stops e = ground (arith, e)

  -- In a connection that its operations lead to, the loop that writes returns and does not throw: its
  -- calls of `write`, each accepted whole, have written the front of the bytes, one after the other,
  -- all of them unless the connection has no room left, and the others are what is left. The capacity and the initial number fit their words, and less than 2^63 - 2 bytes
  -- are offered in all.
  pub write_input-Ends :
      (n : ℕ) (x : TcpConnection) (bytes : List ℕ)
      → n + length bytes + 2 < 2 ^ 63
      → Reach cfg drawn n x
      → Ends n x bytes (write_input x bytes)
  unfolding write_input
  write_input-Ends n x bytes h r = feed-Ends (suc (length bytes)) n x bytes (omega arith) h r
