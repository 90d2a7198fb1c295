-- ===== src/EventLoop/Tests.antt =====
-- A round with one rule.
use tcp_implementation.Base.{ℕ, refl, true, false, List, [], ◌∷◌, some}
use tcp_implementation.FileDescriptor.{FileDescriptor, descriptor, register_read}
use tcp_implementation.EventLoop.{Rule, inward, PollFd, Revents, Polled, some_ready, service_count}
use tcp_implementation.EventLoop.Serving.{Serves, all_served, calls}

-- The state is the one descriptor that there is.
abbrev at_number : FileDescriptor → ℕ → FileDescriptor
at_number w n = w

abbrev reader : Rule FileDescriptor
reader = record {
  fd = 5;
  direction = inward;
  callback = λ w. some (register_read w);
  interest = λ w. true;
  cancel = λ w. w;
}

abbrev asked : PollFd
asked = record { fd_num = 5; direction = inward; events = true }

abbrev readable : Revents
readable = record { poll_error = false; hup = true; ready = true }

abbrev always_readable : List PollFd → Polled
always_readable ps = some_ready (readable ∷ [])

-- The round of that example: the descriptor hung up, but it is still readable.
reader_served :
    Serves at_number
      (reader ∷ [])
      ((asked, readable) ∷ [])
      (descriptor 5)
      (register_read (descriptor 5))
      (reader ∷ [])
unfolding service_count
reader_served =
    calls reader [] [] asked readable [] (descriptor 5) (register_read (descriptor 5))
      (register_read (descriptor 5)) refl refl refl refl
      (all_served [] (register_read (descriptor 5)))
