-- ===== src/TcpSender/Timer.antt =====
-- `tick` of tcp_sender.cc: the retransmission timer over a sequence of ticks.
use native.Mathlib.Nat.{mul_assoc}
use native.Mathlib.Omega.{pow_step}
use tcp_implementation.Base.{
  ℕ, zero, suc, ◌+◌, ◌*◌, ◌^◌, ◌≤◌, ◌<◌, ◌≡◌, sym, ap, ◌∙◌, List, [], ◌∷◌, ◌++◌, true, false, arith,
  u64_mod, u32_mod, u16_mod, if◌then◌else◌, add64, inl, inr, ◌⊎◌, replicate, append_assoc,
}
use tcp_implementation.TcpSegment.{TcpSegment}
use tcp_implementation.TcpSender.{TcpSender}
use tcp_implementation.TcpSender.{retransmit, tick, tick_at}

-- One tick after another.
abbrev pub ticks : TcpSender → List ℕ → TcpSender
ticks s [] = s
ticks s (ms ∷ more) = ticks (tick s ms) more

abbrev pub sum : List ℕ → ℕ
sum [] = 0
sum (ms ∷ more) = ms + sum more

tick_early :
    (s : TcpSender) (ms : ℕ)
    → s.timing_begins ≡ true
    → s.last_tick_time + ms < u64_mod
    → s.last_tick_time + ms < s.applying_retransmission_timeout
    → tick s ms ≡ record s { last_tick_time = s.last_tick_time + ms }
unfolding tick
tick_early s ms timing fits early = go s.outstanding_segments
  where
    go :
        (segs : List TcpSegment)
        → (if s.timing_begins
            then tick_at (record s { last_tick_time = add64 s.last_tick_time ms }) segs
            else s)
          ≡ record s { last_tick_time = s.last_tick_time + ms }
    go [] = ground (arith, timing, fits)
    go (seg ∷ segs) = ground (arith, timing, fits, early)

-- While the timer has not run out, however the time is cut into ticks, only the time counts up: no
-- segment is sent again.
pub ticks_early :
    (mss : List ℕ) (s : TcpSender)
    → s.timing_begins ≡ true
    → s.last_tick_time + sum mss < u64_mod
    → s.last_tick_time + sum mss < s.applying_retransmission_timeout
    → ticks s mss ≡ record s { last_tick_time = s.last_tick_time + sum mss }
ticks_early [] s timing fits early = ap (λ n. record s { last_tick_time = n }) (omega arith)
ticks_early (ms ∷ mss) s timing fits early =
    rw (tick_early s ms timing (omega arith) (omega arith)) (
      ticks_early mss (record s { last_tick_time = s.last_tick_time + ms }) timing (omega arith)
        (omega arith)
      ∙ ap (λ n. record s { last_tick_time = n }) (omega arith))

-- `k` times the timer runs out, at the timeout that then applies.
abbrev pub timeouts : ℕ → TcpSender → TcpSender
timeouts zero s = s
timeouts (suc k) s = timeouts k (tick s s.applying_retransmission_timeout)

tick_late :
    (s : TcpSender) (ms : ℕ) (front : TcpSegment) (rest : List TcpSegment)
    → s.timing_begins ≡ true
    → s.outstanding_segments ≡ front ∷ rest
    → s.last_tick_time + ms < u64_mod
    → s.applying_retransmission_timeout ≤ s.last_tick_time + ms
    → tick s ms ≡ retransmit (record s { last_tick_time = s.last_tick_time + ms }) front
unfolding tick
tick_late s ms front rest timing queue fits late = ground (arith, timing, queue, fits, late)

-- The sender after `k` timeouts that back off.
abbrev pub backed_off : ℕ → TcpSender → TcpSegment → TcpSender
backed_off k s front = record s {
  segments_out = s.segments_out ++ replicate k front;
  last_tick_time = 0;
  consecutive_retransmissions = s.consecutive_retransmissions + k;
  applying_retransmission_timeout = s.applying_retransmission_timeout * 2 ^ k;
}

retransmit_lem :
    (s : TcpSender) (front : TcpSegment)
    → (0 < s.receiver_window_size) ⊎ (front.header.syn ≡ true)
    → s.consecutive_retransmissions + 1 < u16_mod
    → s.applying_retransmission_timeout * 2 < u32_mod
    → retransmit s front ≡ record s {
      segments_out = s.segments_out ++ front ∷ [];
      last_tick_time = 0;
      consecutive_retransmissions = s.consecutive_retransmissions + 1;
      applying_retransmission_timeout = s.applying_retransmission_timeout * 2;
    }
unfolding retransmit
retransmit_lem s front (inl h) c t = ground (arith, h)
retransmit_lem s front (inr h) c t = ground (arith, h)

double_pow : (a k : ℕ) → a * 2 * 2 ^ k ≡ a * 2 ^ suc k
double_pow a k = mul_assoc a 2 (2 ^ k) ∙ ap (λ n. a * n) (sym (pow_step 2 k))

pow-pos : (k : ℕ) → 1 ≤ 2 ^ k
pow-pos zero = omega arith
pow-pos (suc k) = omega (arith, pow-pos k, pow_step 2 k)

le-mul : (a b : ℕ) → 1 ≤ b → a ≤ a * b
le-mul a b h = grind arith

tick-backed_off :
    (s : TcpSender) (front : TcpSegment) (rest : List TcpSegment)
    → s.timing_begins ≡ true
    → s.outstanding_segments ≡ front ∷ rest
    → (0 < s.receiver_window_size) ⊎ (front.header.syn ≡ true)
    → s.last_tick_time + s.applying_retransmission_timeout < u64_mod
    → s.consecutive_retransmissions + 1 < u16_mod
    → s.applying_retransmission_timeout * 2 < u32_mod
    → tick s s.applying_retransmission_timeout ≡ backed_off 1 s front
tick-backed_off s front rest timing queue probe fits c t =
    tick_late s s.applying_retransmission_timeout front rest timing queue fits (omega arith)
    ∙ retransmit_lem
        (record s { last_tick_time = s.last_tick_time + s.applying_retransmission_timeout }) front
        probe c t

-- One or more times in a row the timer runs out with no acknowledgment, the window open or SYN the
-- oldest segment: each time the oldest segment is sent again, the counter counts up, and the
-- timeout doubles, as long as neither overflows.
pub timeouts_back_off :
    (k : ℕ) (s : TcpSender) (front : TcpSegment) (rest : List TcpSegment)
    → s.timing_begins ≡ true
    → s.outstanding_segments ≡ front ∷ rest
    → (0 < s.receiver_window_size) ⊎ (front.header.syn ≡ true)
    → s.last_tick_time + s.applying_retransmission_timeout < u64_mod
    → s.consecutive_retransmissions + suc k < u16_mod
    → s.applying_retransmission_timeout * 2 ^ suc k < u32_mod
    → timeouts (suc k) s ≡ backed_off (suc k) s front
timeouts_back_off zero s front rest timing queue probe fits c t =
    tick-backed_off s front rest timing queue probe fits c t
timeouts_back_off (suc k) s front rest timing queue probe fits c t =
    let a = s.applying_retransmission_timeout in
    let grows : a * 2 ≤ a * 2 * 2 ^ suc k = le-mul (a * 2) (2 ^ suc k) (pow-pos (suc k)) in
    let doubled : a * 2 * 2 ^ suc k ≡ a * 2 ^ suc (suc k) = double_pow a (suc k) in
    rw (tick-backed_off s front rest timing queue probe fits (omega arith) (omega arith)) (
      timeouts_back_off k (backed_off 1 s front) front rest timing queue probe (omega arith)
        (omega arith) (omega arith)
      ∙ ground (arith, append_assoc s.segments_out (front ∷ []) (replicate (suc k) front), doubled))

tick-probe :
    (s : TcpSender) (front : TcpSegment) (rest : List TcpSegment)
    → s.timing_begins ≡ true
    → s.outstanding_segments ≡ front ∷ rest
    → s.receiver_window_size ≡ 0
    → front.header.syn ≡ false
    → s.last_tick_time + s.applying_retransmission_timeout < u64_mod
    → tick s s.applying_retransmission_timeout
      ≡ record s { segments_out = s.segments_out ++ front ∷ []; last_tick_time = 0 }
unfolding retransmit
tick-probe s front rest timing queue shut unsyn fits =
    tick_late s s.applying_retransmission_timeout front rest timing queue fits (omega arith)
    ∙ ground (arith, shut, unsyn)

-- With the window at 0 the segment that probes it is sent again at the same timeout each time.
pub timeouts_probe :
    (k : ℕ) (s : TcpSender) (front : TcpSegment) (rest : List TcpSegment)
    → s.timing_begins ≡ true
    → s.outstanding_segments ≡ front ∷ rest
    → s.receiver_window_size ≡ 0
    → front.header.syn ≡ false
    → s.last_tick_time + s.applying_retransmission_timeout < u64_mod
    → timeouts (suc k) s
      ≡ record s { segments_out = s.segments_out ++ replicate (suc k) front; last_tick_time = 0 }
timeouts_probe zero s front rest timing queue shut unsyn fits =
    tick-probe s front rest timing queue shut unsyn fits
timeouts_probe (suc k) s front rest timing queue shut unsyn fits =
    rw (tick-probe s front rest timing queue shut unsyn fits) (
      timeouts_probe k
        (record s { segments_out = s.segments_out ++ front ∷ []; last_tick_time = 0 }) front rest
        timing queue shut unsyn (omega arith)
      ∙ ground (arith, append_assoc s.segments_out (front ∷ []) (replicate (suc k) front)))
