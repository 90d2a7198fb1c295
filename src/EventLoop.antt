-- ===== src/EventLoop.antt =====
-- libsponge/util/eventloop.hh and .cc, over any state of the program. A rule shares its descriptor with
-- the program: it has the descriptor's number, by which the state gives it. The system call `poll` is a
-- parameter.
pub mod Serving
mod Tests
use tcp_implementation.Base.{
  ℕ, Bool, true, false, not, ◌&&◌, ◌||◌, List, [], ◌∷◌, ◌++◌, Option, none, some, ◌==◌,
  if◌then◌else◌, ◌>>=◌,
}
use tcp_implementation.FileDescriptor.{FileDescriptor}

-- `enum class Direction`.
pub data Direction : Type 0 where
  inward outward : Direction

-- `enum class Result`.
pub data Result : Type 0 where
  success timeout exit : Result

-- `EventLoop::Rule` over the state `W`. A callback gives `none` where it throws.
pub record Rule (W : Type 0) : Type 0 where
  pub fd : ℕ
  pub direction : Direction
  pub callback : W → Option W
  pub interest : W → Bool
  pub cancel : W → W

-- `struct pollfd` on its way to `poll`: `events` is whether the rule asks for its direction.
pub record PollFd : Type 0 where
  pub fd_num : ℕ
  pub direction : Direction
  pub events : Bool

-- The bits of `revents`: POLLERR or POLLNVAL, POLLHUP, and the direction's own.
pub record Revents : Type 0 where
  pub poll_error : Bool
  pub hup : Bool
  pub ready : Bool

abbrev pub no_events : Revents
no_events = record { poll_error = false; hup = false; ready = false }

-- What `poll` comes to; after an error that is not EINTR the code goes on.
pub data Polled : Type 0 where
  nothing_ready interrupted failed : Polled
  some_ready : List Revents → Polled

-- What a step of the loop comes to.
pub data Turn (W : Type 0) : Type 0 where
  returns : List (Rule W) → W → Result → Turn W
  throws : W → Turn W

module _ {W : Type 0} (descriptor : W → ℕ → FileDescriptor) where
  -- `Rule::service_count()`.
  unfoldable pub service_count : Rule W → W → ℕ
  service_count r w = elim r.direction [
    | inward ↦ (descriptor w r.fd).read_count
    | outward ↦ (descriptor w r.fd).write_count
  ]

  -- Whether the first loop of `wait_next_event` drops the rule.
  unfoldable pub defunct : Rule W → W → Bool
  defunct r w = elim r.direction [
    | inward ↦ (descriptor w r.fd).eof || (descriptor w r.fd).closed
    | outward ↦ (descriptor w r.fd).closed
  ]

  -- `add_rule(...)`, behind the rules that are there.
  abbrev pub add_rule : List (Rule W) → Rule W → List (Rule W)
  add_rule rules r = rules ++ r ∷ []

  abbrev pub pollfd_of : Rule W → W → PollFd
  pollfd_of r w = record { fd_num = r.fd; direction = r.direction; events = r.interest w }

  -- The first loop of `wait_next_event`: the rules that stay, what to poll, and the state.
  unfoldable pub setup_loop : List (Rule W) → W → List (Rule W) × List PollFd × W
  setup_loop [] w = ([], [], w)
  setup_loop (r ∷ rest) w =
      let dropped = setup_loop rest (r.cancel w) in
      let kept = setup_loop rest w in
      if defunct r w then dropped else (r ∷ kept.0, pollfd_of r w ∷ kept.1, kept.2)

  -- `something_to_poll`.
  abbrev pub any_events : List PollFd → Bool
  any_events [] = false
  any_events (p ∷ rest) = p.events || any_events rest

  -- Behind a rule that stays.
  abbrev pub behind : Rule W → Turn W → Turn W
  behind r (returns rules w result) = returns (r ∷ rules) w result
  behind r (throws w) = throws w

  -- The end of a round: the callback of a rule that is ready, and the test for a busy wait.
  unfoldable pub serve : Rule W → W → (W → Turn W) → Turn W
  serve r w next = elim (r.callback w) [
    | none ↦ throws w
    | some w' ↦
        if service_count r w == service_count r w' && r.interest w'
        then throws w'
        else behind r (next w')
  ]

  -- The second loop of `wait_next_event`. The rules and the poll's results go side by side.
  unfoldable pub result_loop : List (Rule W) → List (PollFd × Revents) → W → Turn W
  result_loop [] polled w = returns [] w success
  result_loop (r ∷ rest) [] w = throws w
  result_loop (r ∷ rest) ((p, re) ∷ polled) w =
      let ready = re.ready && p.events in
      let dropped = result_loop rest polled (r.cancel w) in
      let next : W → Turn W = result_loop rest polled in
      if re.poll_error
      then throws w
      else if re.hup && p.events && not ready
      then dropped
      else if ready
      then serve r w next
      else behind r (next w)

  -- The results for as many entries as were polled; an entry without a result has no event.
  abbrev pub beside : List PollFd → List Revents → List (PollFd × Revents)
  beside [] res = []
  beside (p ∷ pollfds) [] = (p, no_events) ∷ beside pollfds []
  beside (p ∷ pollfds) (re ∷ res) = (p, re) ∷ beside pollfds res

  -- `wait_next_event(timeout_ms)`, where `poll` answers the entries.
  unfoldable pub wait_next_event : List (Rule W) → W → (List PollFd → Polled) → Turn W
  wait_next_event rules w poll =
      let (kept, pollfds, w') = setup_loop rules w in
      if not (any_events pollfds) then returns kept w' exit else elim (poll pollfds) [
        | nothing_ready ↦ returns kept w' timeout
        | interrupted ↦ returns kept w' exit
        | failed ↦ result_loop kept (beside pollfds []) w'
        | some_ready res ↦ result_loop kept (beside pollfds res) w'
      ]
