-- ===== src/StreamCopy/Reach.antt =====
-- The states that steps of bidirectional_stream_copy.cc lead to, and what was read and written on the
-- way.
use tcp_implementation.Base.{
  ℕ, ◌+◌, ◌<◌, ◌≡◌, refl, List, [], ◌++◌, Option, some, length, arith, Option-cases, inl, inr,
  u64_mod,
}
use tcp_implementation.ByteStream
use tcp_implementation.ByteStream.{
  ByteStream, remaining_capacity, end_input, peek_output, pop_output, eof,
}
use tcp_implementation.ByteStream.Inv.{new-IsValid}
use tcp_implementation.FileDescriptor.{FileDescriptor}
use tcp_implementation.StreamCopy.{
  StreamCopy, new, fill, drain, read_input, write_socket, read_socket, write_output,
  cancel_outbound, cancel_inbound,
}
use tcp_implementation.StreamCopy.Order.{InOrder, fill-InOrder, drain-InOrder, ended-InOrder}

-- The states that steps of the program lead to from a new one, with the bytes that were read from stdin
-- and that
-- the system took for the socket, and those read from the socket and taken for stdout.
pub data Reach : StreamCopy → List ℕ → List ℕ → List ℕ → List ℕ → Type 0 where
  start : (socket : FileDescriptor) → Reach (new socket) [] [] [] []
  reads_input :
      (c c' : StreamCopy) (from_stdin to_socket from_socket to_stdout bytes : List ℕ)
      → Reach c from_stdin to_socket from_socket to_stdout
      → length from_stdin + length bytes < u64_mod
      → read_input c (some bytes) ≡ some c'
      → Reach c' (from_stdin ++ bytes) to_socket from_socket to_stdout
  writes_socket :
      (c c' : StreamCopy) (from_stdin to_socket from_socket to_stdout : List ℕ)
      (w : FileDescriptor × ByteStream × List ℕ) (results : List (Option ℕ))
      → Reach c from_stdin to_socket from_socket to_stdout
      → drain c.socket c.outbound results ≡ some w
      → write_socket c results ≡ some c'
      → Reach c' from_stdin (to_socket ++ w.2) from_socket to_stdout
  reads_socket :
      (c c' : StreamCopy) (from_stdin to_socket from_socket to_stdout bytes : List ℕ)
      → Reach c from_stdin to_socket from_socket to_stdout
      → length from_socket + length bytes < u64_mod
      → read_socket c (some bytes) ≡ some c'
      → Reach c' from_stdin to_socket (from_socket ++ bytes) to_stdout
  writes_output :
      (c c' : StreamCopy) (from_stdin to_socket from_socket to_stdout : List ℕ)
      (w : FileDescriptor × ByteStream × List ℕ) (results : List (Option ℕ))
      → Reach c from_stdin to_socket from_socket to_stdout
      → drain c.output c.inbound results ≡ some w
      → write_output c results ≡ some c'
      → Reach c' from_stdin to_socket from_socket (to_stdout ++ w.2)
  cancels_outbound :
      (c : StreamCopy) (from_stdin to_socket from_socket to_stdout : List ℕ)
      → Reach c from_stdin to_socket from_socket to_stdout
      → Reach (cancel_outbound c) from_stdin to_socket from_socket to_stdout
  cancels_inbound :
      (c : StreamCopy) (from_stdin to_socket from_socket to_stdout : List ℕ)
      → Reach c from_stdin to_socket from_socket to_stdout
      → Reach (cancel_inbound c) from_stdin to_socket from_socket to_stdout

-- Both directions.
record Both (c : StreamCopy) (from_stdin to_socket from_socket to_stdout : List ℕ) : Type 0 where
  pub outbound : InOrder from_stdin to_socket c.outbound
  pub inbound : InOrder from_socket to_stdout c.inbound

new-InOrder : (capacity : ℕ) → capacity < u64_mod → InOrder [] [] (ByteStream.new capacity)
unfolding ByteStream.new
new-InOrder capacity h = record { valid = new-IsValid capacity h; counted = refl; order = refl }

read_input-some :
    (c c' : StreamCopy) (result : Option (List ℕ))
    → read_input c result ≡ some c'
    → (f' : FileDescriptor) × (fill c.input c.outbound result ≡ some (f', c'.outbound))
      × (c'.inbound ≡ c.inbound)
unfolding read_input
read_input-some c c' result e = elim (Option-cases (fill c.input c.outbound result)) [
  | inl thrown ↦ absurd (ground (arith, e, thrown))
  | inr (r, filled) ↦ (r.0, ground (arith, e, filled), ground (arith, e, filled))
]

read_socket-some :
    (c c' : StreamCopy) (result : Option (List ℕ))
    → read_socket c result ≡ some c'
    → (f' : FileDescriptor) × (fill c.socket c.inbound result ≡ some (f', c'.inbound))
      × (c'.outbound ≡ c.outbound)
unfolding read_socket
read_socket-some c c' result e = elim (Option-cases (fill c.socket c.inbound result)) [
  | inl thrown ↦ absurd (ground (arith, e, thrown))
  | inr (r, filled) ↦ (r.0, ground (arith, e, filled), ground (arith, e, filled))
]

write_socket-some :
    (c c' : StreamCopy) (w : FileDescriptor × ByteStream × List ℕ) (results : List (Option ℕ))
    → drain c.socket c.outbound results ≡ some w
    → write_socket c results ≡ some c'
    → (c'.outbound ≡ w.1) × (c'.inbound ≡ c.inbound)
unfolding write_socket
write_socket-some c c' w results drained e = ground (arith, e, drained)

write_output-some :
    (c c' : StreamCopy) (w : FileDescriptor × ByteStream × List ℕ) (results : List (Option ℕ))
    → drain c.output c.inbound results ≡ some w
    → write_output c results ≡ some c'
    → (c'.inbound ≡ w.1) × (c'.outbound ≡ c.outbound)
unfolding write_output
write_output-some c c' w results drained e = ground (arith, e, drained)

reached :
    (c : StreamCopy) (from_stdin to_socket from_socket to_stdout : List ℕ)
    → Reach c from_stdin to_socket from_socket to_stdout
    → Both c from_stdin to_socket from_socket to_stdout
unfolding new
reached _ _ _ _ _ (start socket) = record {
  outbound = new-InOrder 1048576 (omega arith);
  inbound = new-InOrder 1048576 (omega arith);
}
reached _ _ _ _ _ (reads_input c c' i s k o bytes r fits e) =
    let b = reached c i s k o r in
    let f = read_input-some c c' (some bytes) e in
    record {
      outbound = fill-InOrder i s bytes c.input f.0 c.outbound c'.outbound b.outbound fits f.1;
      inbound = rw f.2 b.inbound;
    }
reached _ _ _ _ _ (writes_socket c c' i s k o w results r drained e) =
    let b = reached c i s k o r in
    let f = write_socket-some c c' w results drained e in
    record {
      outbound =
          rw f.0 (drain-InOrder i s c.socket w.0 c.outbound w.1 w.2 results b.outbound drained);
      inbound = rw f.1 b.inbound;
    }
reached _ _ _ _ _ (reads_socket c c' i s k o bytes r fits e) =
    let b = reached c i s k o r in
    let f = read_socket-some c c' (some bytes) e in
    record {
      outbound = rw f.2 b.outbound;
      inbound = fill-InOrder k o bytes c.socket f.0 c.inbound c'.inbound b.inbound fits f.1;
    }
reached _ _ _ _ _ (writes_output c c' i s k o w results r drained e) =
    let b = reached c i s k o r in
    let f = write_output-some c c' w results drained e in
    record {
      outbound = rw f.1 b.outbound;
      inbound = rw f.0 (drain-InOrder k o c.output w.0 c.inbound w.1 w.2 results b.inbound drained);
    }
reached _ _ _ _ _ (cancels_outbound c i s k o r) =
    let b = reached c i s k o r in
    record { outbound = ended-InOrder i s c.outbound b.outbound; inbound = b.inbound }
reached _ _ _ _ _ (cancels_inbound c i s k o r) =
    let b = reached c i s k o r in
    record { outbound = b.outbound; inbound = ended-InOrder k o c.inbound b.inbound }

-- Whatever the rules do in whatever order, and however much of a write the system takes: what was read
-- from stdin is what the system took out of the writes to the socket and what is buffered behind it,
-- and what was read from the socket is what it took out of those to stdout and what is buffered behind
-- it. The totals fit 64 bits.
pub Reach-copies :
    (c : StreamCopy) (from_stdin to_socket from_socket to_stdout : List ℕ)
    → Reach c from_stdin to_socket from_socket to_stdout
    → (from_stdin ≡ to_socket ++ c.outbound.stream) × (from_socket ≡ to_stdout ++ c.inbound.stream)
Reach-copies c i s k o r = let b = reached c i s k o r in (b.outbound.order, b.inbound.order)
