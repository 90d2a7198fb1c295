-- ===== src/EventLoop/Serving.antt =====
-- What one round of the event loop of eventloop.cc does.
use tcp_implementation.Base.{
  ℕ, ◌≡◌, refl, arith, Bool, true, false, ◌&&◌, List, [], ◌∷◌, some, ◌==◌,
}
use tcp_implementation.FileDescriptor.{FileDescriptor}
use tcp_implementation.EventLoop.{
  Rule, PollFd, Revents, throws, service_count, serve, result_loop, beside,
}

module _ {W : Type 0} (descriptor : W → ℕ → FileDescriptor) where
  -- A round over the rules with what was polled for them, from a state to a state, with the rules that
  -- are kept, where nothing throws: no poll error; a rule whose descriptor hung up, and is not ready, is
  -- cancelled and dropped; the callback of one that asked and is ready is called once, returns, and reads
  -- or writes the descriptor or satisfies the rule's interest; any other is passed over.
  pub data Serves : List (Rule W) → List (PollFd × Revents) → W → W → List (Rule W) → Type 0 where
    all_served : (polled : List (PollFd × Revents)) (w : W) → Serves [] polled w w []
    passes :
        (r : Rule W) (rules kept : List (Rule W)) (p : PollFd) (re : Revents)
        (polled : List (PollFd × Revents)) (w w' : W)
        → re.poll_error ≡ false
        → (re.hup && p.events) ≡ false
        → (re.ready && p.events) ≡ false
        → Serves rules polled w w' kept
        → Serves (r ∷ rules) ((p, re) ∷ polled) w w' (r ∷ kept)
    hangs_up :
        (r : Rule W) (rules kept : List (Rule W)) (p : PollFd) (re : Revents)
        (polled : List (PollFd × Revents)) (w w' : W)
        → re.poll_error ≡ false
        → (re.hup && p.events) ≡ true
        → (re.ready && p.events) ≡ false
        → Serves rules polled (r.cancel w) w' kept
        → Serves (r ∷ rules) ((p, re) ∷ polled) w w' kept
    calls :
        (r : Rule W) (rules kept : List (Rule W)) (p : PollFd) (re : Revents)
        (polled : List (PollFd × Revents)) (w w1 w' : W)
        → re.poll_error ≡ false
        → (re.ready && p.events) ≡ true
        → r.callback w ≡ some w1
        → (service_count descriptor r w == service_count descriptor r w1 && r.interest w1) ≡ false
        → Serves rules polled w1 w' kept
        → Serves (r ∷ rules) ((p, re) ∷ polled) w w' (r ∷ kept)

  no_hangup : (a b : Bool) → (a && b && false) ≡ false
  no_hangup a b = ground arith

  -- A callback that is called for a descriptor which is ready, and neither reads nor writes it nor
  -- satisfies its own rule's interest, makes the loop throw.
  pub busy_wait_throws :
      (r : Rule W) (rules : List (Rule W)) (p : PollFd) (ps : List PollFd) (re : Revents)
      (res : List Revents) (w w1 : W)
      → re.poll_error ≡ false
      → (re.ready && p.events) ≡ true
      → r.callback w ≡ some w1
      → service_count descriptor r w ≡ service_count descriptor r w1
      → r.interest w1 ≡ true
      → result_loop descriptor (r ∷ rules) (beside descriptor (p ∷ ps) (re ∷ res)) w ≡ throws w1
  unfolding result_loop serve
  busy_wait_throws r rules p ps re res w w1 no_error ready called same interested =
      let count : (service_count descriptor r w == service_count descriptor r w1) ≡ true =
        ground (arith, same) in
      rw no_error (
        rw ready
          (rw (no_hangup re.hup p.events) (rw (called, serve) (rw count (rw interested refl)))))
