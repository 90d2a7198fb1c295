-- ===== src/TcpSender/FillLoop.antt =====
-- The loop in `fill_window` of tcp_sender.cc: it ends, and what it leaves.
use tcp_implementation.Base.{
  ℕ, zero, suc, ◌≤◌, ◌<◌, ◌≡◌, refl, ◌∙◌, List, [], ◌∷◌, arith, length, sub64, inl, inr, ◌⊎◌,
}
use tcp_implementation.ByteStream.{buffer_empty}
use tcp_implementation.TcpSegment.{TcpSegment, length_in_sequence_space}
use tcp_implementation.TcpSender.{TcpSender, fill_round, fill_loop}
use tcp_implementation.TcpSender.Inv.{IsValid}
use tcp_implementation.TcpSender.Rounds.{Filling, Advanced, round-Filling, round-Advanced}

-- What the rounds leave: a valid sender, its next number within `limit`, and either nothing more to
-- send or no more room.
pub record Filled (limit : ℕ) (s s' : TcpSender) : Type 0 where
  pub valid : IsValid s'
  pub next_le : s.next_seqno ≤ s'.next_seqno
  pub within : s'.next_seqno ≤ limit
  pub confirmed : s'.confirmed_seqno ≡ s.confirmed_seqno
  pub written : s'.stream.bytes_written ≡ s.stream.bytes_written
  pub exhausted : (s'.stream.stream ≡ []) ⊎ (s'.next_seqno ≡ limit)

stop-Filled :
    {limit : ℕ} (s : TcpSender) (seg : TcpSegment) (available : ℕ)
    → Filling limit s seg available
    → (s.stream.stream ≡ []) ⊎ (available ≡ 0)
    → Filled limit s s
stop-Filled {limit} s seg available f e = record {
  valid = f.valid;
  next_le = omega arith;
  within = omega (arith, f.room);
  confirmed = refl;
  written = refl;
  exhausted = elim e [ inl h ↦ inl h | inr h ↦ inr (omega (arith, f.room)) ];
}

fill_loop_stop :
    (fuel : ℕ) (s : TcpSender) (seg : TcpSegment) (available : ℕ)
    → (s.stream.stream ≡ []) ⊎ (available ≡ 0)
    → fill_loop fuel s seg available ≡ (s, available)
unfolding fill_loop buffer_empty
fill_loop_stop zero s seg available e = refl
fill_loop_stop (suc fuel) s seg available (inl e) = rw e refl
fill_loop_stop (suc fuel) s seg available (inr e) = ground (arith, e)

fill_loop_go :
    (fuel : ℕ) (s : TcpSender) (seg : TcpSegment) (available : ℕ)
    → 0 < length s.stream.stream
    → 0 < available
    → let r = fill_round s seg available in
      fill_loop (suc fuel) s seg available
      ≡ fill_loop fuel r.0 r.1 (sub64 available (length_in_sequence_space r.1))
unfolding fill_loop buffer_empty
fill_loop_go fuel s seg available h pos = ground arith

-- Whether the loop goes on.
goes_on :
    (xs : List ℕ) (available : ℕ)
    → ((xs ≡ []) ⊎ (available ≡ 0)) ⊎ (0 < length xs) × (0 < available)
goes_on [] available = inl (inl refl)
goes_on (x ∷ xs) zero = inl (inr refl)
goes_on (x ∷ xs) (suc n) = inr (omega arith, omega arith)

after-Filled :
    {limit : ℕ} {s s' s'' : TcpSender} → Advanced s s' → Filled limit s' s'' → Filled limit s s''
after-Filled a f = record {
  valid = f.valid;
  next_le = omega (arith, a.next_le, f.next_le);
  within = f.within;
  confirmed = f.confirmed ∙ a.confirmed;
  written = f.written ∙ a.written;
  exhausted = f.exhausted;
}

-- The loop of `fill_window`, on fuel that the buffered bytes bound, ends when nothing is left to
-- send or the room is used up.
pub fill_loop-Filled :
    {limit : ℕ} (fuel : ℕ) (s : TcpSender) (seg : TcpSegment) (available : ℕ)
    → Filling limit s seg available
    → length s.stream.stream ≤ fuel
    → Filled limit s (fill_loop fuel s seg available).0
fill_loop-Filled zero s seg available f enough = elim (goes_on s.stream.stream available) [
  | inl stop ↦ rw (fill_loop_stop zero s seg available stop) (stop-Filled s seg available f stop)
  | inr go ↦ absurd (omega (arith, go.0))
]
fill_loop-Filled (suc fuel) s seg available f enough = elim (goes_on s.stream.stream available) [
  | inl stop ↦
      rw (fill_loop_stop (suc fuel) s seg available stop) (stop-Filled s seg available f stop)
  | inr go ↦
      let a = round-Advanced s seg available f go.0 go.1 in
      let r = fill_round s seg available in
      rw (fill_loop_go fuel s seg available go.0 go.1) (
        after-Filled a (
          fill_loop-Filled fuel r.0 r.1 (sub64 available (length_in_sequence_space r.1))
            (round-Filling s seg available f go.0 go.1) (omega (arith, a.reads))))
]
