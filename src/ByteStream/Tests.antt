-- ===== src/ByteStream/Tests.antt =====
-- Runs of byte_stream.cc, and the theorems at inputs that meet their hypotheses.
use tcp_implementation.Base.{ℕ, ◌≡◌, refl, List, [], ◌∷◌, true, false, arith}
use tcp_implementation.ByteStream.{ByteStream, remaining_capacity, write, write_loop, read, eof}
use tcp_implementation.ByteStream.Inv.{IsValid}
use tcp_implementation.ByteStream.Queue.{
  Op, writes, peeks, pops, reads, ends, queue_run, stream_run, view, run_refines,
}
use tcp_implementation.ByteStream.Fifo.{Carries}

-- 3 bytes of room, 2 of them taken; 4 bytes were read before.
abbrev cat_stream : ByteStream
cat_stream = record {
  error = false;
  input_ended = false;
  capacity = 3;
  buffer_size = 2;
  bytes_written = 6;
  bytes_read = 4;
  stream = 5 ∷ 6 ∷ [];
}

abbrev cat_text : List ℕ
cat_text = 1 ∷ 2 ∷ 3 ∷ 4 ∷ 5 ∷ 6 ∷ 7 ∷ 8 ∷ 9 ∷ []

cat_stream-IsValid : IsValid cat_stream
cat_stream-IsValid = omega arith

cat_stream-Carries : Carries cat_text cat_stream
cat_stream-Carries = record {
  valid = cat_stream-IsValid;
  within_text = omega arith;
  buffered = refl;
}

-- tests/byte_stream_capacity.cc: the overflow is refused.
write_cut : (write cat_stream (7 ∷ 8 ∷ [])).1 ≡ 1
unfolding write
write_cut = refl

read_all : (read cat_stream 9).1 ≡ 5 ∷ 6 ∷ []
unfolding read
read_all = refl

abbrev calls : List Op
calls = writes (7 ∷ 8 ∷ []) ∷ peeks 2 ∷ reads 1 ∷ ends ∷ pops 9 ∷ []

run_calls :
    stream_run cat_stream calls
    ≡ (1, [], 0, false)
      ∷ (0, 5 ∷ 6 ∷ [], 0, false)
      ∷ (0, 5 ∷ [], 1, false)
      ∷ (0, [], 1, false)
      ∷ (0, [], 3, true)
      ∷ []
unfolding stream_run write read write_loop eof remaining_capacity
run_calls = refl

run_refines_example : stream_run cat_stream calls ≡ queue_run (view cat_stream) calls
run_refines_example = run_refines calls cat_stream-IsValid (omega arith)
