-- ===== src/ByteStream/Queue.antt =====
-- The bounded FIFO of bytes that byte_stream.cc implements. It can be closed, and, unlike what the
-- comment of the class says, it takes bytes also after that.
use tcp_implementation.Base.{
  ℕ, ◌+◌, ◌-◌, ◌≤◌, ◌<◌, ◌≡◌, refl, List, [], ◌∷◌, ◌++◌, Bool, true, ◌&&◌, arith, u64_mod, length,
  take, drop, ◌==◌, length-take, take-min, drop-min,
}
use tcp_implementation.ByteStream.{
  ByteStream, remaining_capacity, write, peek_output, pop_output, read, end_input, eof,
}
use tcp_implementation.ByteStream.Inv.{
  IsValid, write-IsValid, pop_output-IsValid, read-IsValid, write_lem, pop_output_lem,
  peek_output_lem, read_lem, remaining_capacity-add-buffer_size,
}

-- A call by the writer or the reader.
pub data Op : Type 0 where
  writes : List ℕ → Op
  peeks pops reads : ℕ → Op
  ends : Op

-- What a call returns, then the room left and whether the stream is at its end.
abbrev pub Reply : Type 0
Reply = ℕ × List ℕ × ℕ × Bool

pub record Queue : Type 0 where
  pub cap : ℕ
  pub closed : Bool
  pub items : List ℕ

abbrev pub room : Queue → ℕ
room q = q.cap - length q.items

unfoldable pub queue_step : Queue → Op → Queue × (ℕ × List ℕ)
queue_step q (writes xs) =
    (record q { items = q.items ++ take (room q) xs }, (length (take (room q) xs), []))
queue_step q (peeks n) = (q, (0, take n q.items))
queue_step q (pops n) = (record q { items = drop n q.items }, (0, []))
queue_step q (reads n) = (record q { items = drop n q.items }, (0, take n q.items))
queue_step q ends = (record q { closed = true }, (0, []))

unfoldable pub queue_run : Queue → List Op → List Reply
unfolding queue_step
queue_run q [] = []
queue_run q (o ∷ os) =
    let (q', r) = queue_step q o in
    (r.0, r.1, room q', q'.closed && length q'.items == 0) ∷ queue_run q' os

-- The same calls on the stream itself.
unfoldable pub stream_step : ByteStream → Op → ByteStream × (ℕ × List ℕ)
stream_step b (writes xs) = let (b', n) = write b xs in (b', (n, []))
stream_step b (peeks n) = (b, (0, peek_output b n))
stream_step b (pops n) = (pop_output b n, (0, []))
stream_step b (reads n) = let (b', xs) = read b n in (b', (0, xs))
stream_step b ends = (end_input b, (0, []))

unfoldable pub stream_run : ByteStream → List Op → List Reply
unfolding stream_step
stream_run b [] = []
stream_run b (o ∷ os) =
    let (b', r) = stream_step b o in (r.0, r.1, remaining_capacity b', eof b') ∷ stream_run b' os

abbrev pub view : ByteStream → Queue
view b = record { cap = b.capacity; closed = b.input_ended; items = b.stream }

-- How many bytes a list of calls offers to the stream.
abbrev pub offered_by : Op → ℕ
offered_by (writes xs) = length xs
offered_by (peeks n) = 0
offered_by (pops n) = 0
offered_by (reads n) = 0
offered_by ends = 0

abbrev pub offered : List Op → ℕ
offered [] = 0
offered (o ∷ os) = offered_by o + offered os

step_refines :
    {b : ByteStream} (o : Op)
    → IsValid b
    → b.bytes_written + offered_by o < u64_mod
    → let (b', r) = stream_step b o in (view b', r) ≡ queue_step (view b) o
unfolding stream_step queue_step
step_refines {b} (writes xs) v h = ground (
  arith,
  write_lem xs v h,
  take-min (b.capacity - b.buffer_size) xs,
  length-take (b.capacity - b.buffer_size) xs,
)
step_refines {b} (peeks n) v h = ground (arith, peek_output_lem n v)
step_refines {b} (pops n) v h = ground (arith, pop_output_lem n v, drop-min n b.stream)
step_refines {b} (reads n) v h = ground (arith, read_lem n v, drop-min n b.stream)
step_refines {b} ends v h = refl

step-IsValid :
    {b : ByteStream} (o : Op)
    → IsValid b
    → b.bytes_written + offered_by o < u64_mod
    → IsValid (stream_step b o).0
unfolding stream_step
step-IsValid {b} (writes xs) v h = write-IsValid xs v h
step-IsValid {b} (peeks n) v h = v
step-IsValid {b} (pops n) v h = pop_output-IsValid n v
step-IsValid {b} (reads n) v h = read-IsValid n v
step-IsValid {b} ends v h = ground arith

step-bytes_written :
    {b : ByteStream} (o : Op)
    → IsValid b
    → b.bytes_written + offered_by o < u64_mod
    → (stream_step b o).0.bytes_written ≤ b.bytes_written + offered_by o
unfolding stream_step
step-bytes_written {b} (writes xs) v h = rw (write_lem xs v h) (omega arith)
step-bytes_written {b} (peeks n) v h = omega arith
step-bytes_written {b} (pops n) v h = rw (pop_output_lem n v) (omega arith)
step-bytes_written {b} (reads n) v h = rw (read_lem n v) (omega arith)
step-bytes_written {b} ends v h = omega arith

room-view : {b : ByteStream} → IsValid b → remaining_capacity b ≡ room (view b)
room-view v = omega (arith, remaining_capacity-add-buffer_size v)

eof-view : (b : ByteStream) → eof b ≡ ((view b).closed && length (view b).items == 0)
unfolding eof
eof-view b = refl

-- No sequence of calls tells a well-formed byte stream from the bounded queue of its buffered
-- bytes, as long as the byte counter does not wrap: each call returns the same count and the same
-- bytes, and leaves the same room and the same answer to `eof`. The queue, as the code, accepts bytes
-- also after `end_input`, which byte_stream.hh says cannot be.
pub run_refines :
    (os : List Op) {b : ByteStream}
    → IsValid b
    → b.bytes_written + offered os < u64_mod
    → stream_run b os ≡ queue_run (view b) os
unfolding stream_run queue_run
run_refines [] v h = refl
run_refines (o ∷ os) {b} v h = rw (
  run_refines os (step-IsValid o v (omega arith))
      (omega (arith, step-bytes_written o v (omega arith))),
  room-view (step-IsValid o v (omega arith)),
  eof-view,
  ← step_refines o v (omega arith),
)
