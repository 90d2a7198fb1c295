-- ===== src/ByteStream/Inv.antt =====
-- What each operation of byte_stream.cc does to a well-formed stream, and that it stays so.
use tcp_implementation.Base.{
  ℕ, zero, suc, ◌+◌, ◌-◌, ◌≤◌, ◌<◌, ◌≡◌, List, [], ◌∷◌, ◌++◌, append-nil, append_assoc, arith, min,
  u64_mod, length, take, drop, length-append, length-take, length-drop, take-ge, add64,
}
use tcp_implementation.ByteStream.{
  ByteStream, new, remaining_capacity, write_loop, writeable_size, write, bounded_len, peek_output,
  pop_output, read, end_input,
}

-- The counters agree with the buffer, and the buffer is within the capacity.
pub record IsValid (b : ByteStream) : Type 0 where
  pub counted : b.buffer_size ≡ length b.stream
  pub within : b.buffer_size ≤ b.capacity
  pub capacity_fits : b.capacity < u64_mod
  pub balance : b.bytes_written ≡ b.bytes_read + b.buffer_size
  pub written_fits : b.bytes_written < u64_mod

pub new-IsValid : (capacity : ℕ) → capacity < u64_mod → IsValid (new capacity)
unfolding new
new-IsValid capacity h = ground arith

-- `remaining_capacity` does not wrap: with the buffered bytes it makes up the capacity.
pub remaining_capacity-add-buffer_size :
    {b : ByteStream} → IsValid b → remaining_capacity b + b.buffer_size ≡ b.capacity
unfolding remaining_capacity
remaining_capacity-add-buffer_size v = omega arith

-- The stream after `k` bytes of `xs` are pushed.
abbrev pub pushed : ByteStream → List ℕ → ℕ → ByteStream
pushed b xs k = record b {
  stream = b.stream ++ xs;
  buffer_size = b.buffer_size + k;
  bytes_written = b.bytes_written + k;
}

write_loop-pushed :
    (n : ℕ) (xs : List ℕ) (b : ByteStream)
    → n ≤ length xs
    → b.buffer_size + n < u64_mod
    → b.bytes_written + n < u64_mod
    → write_loop n xs b ≡ pushed b (take n xs) n
unfolding write_loop
write_loop-pushed zero xs b h i j = ground (arith, append-nil b.stream)
write_loop-pushed (suc n) [] b h i j = absurd (omega arith)
write_loop-pushed (suc n) (x ∷ xs) b h i j = ground (
  arith,
  write_loop-pushed n xs (record b {
    stream = b.stream ++ x ∷ [];
    buffer_size = add64 b.buffer_size 1;
    bytes_written = add64 b.bytes_written 1;
  }),
  append_assoc b.stream (x ∷ []) (take n xs),
)

-- How many bytes of a text a stream accepts.
abbrev pub accepted : ByteStream → List ℕ → ℕ
accepted b xs = min (length xs) (b.capacity - b.buffer_size)

writeable_size-accepted :
    {b : ByteStream} (xs : List ℕ) → IsValid b → writeable_size b xs ≡ accepted b xs
unfolding writeable_size remaining_capacity
writeable_size-accepted xs v = ground arith

pushed-none : (b : ByteStream) (xs : List ℕ) (n : ℕ) → n ≡ 0 → pushed b (take n xs) n ≡ b
pushed-none b xs zero e = ground (arith, append-nil b.stream)
pushed-none b xs (suc n) e = absurd (omega arith)

-- `write` appends as many bytes of its text as fit, in order, and returns their number.
pub write_lem :
    {b : ByteStream} (xs : List ℕ)
    → IsValid b
    → b.bytes_written + length xs < u64_mod
    → write b xs ≡ (pushed b (take (accepted b xs) xs) (accepted b xs), accepted b xs)
unfolding write
write_lem {b} xs v h = ground (
  arith,
  writeable_size-accepted xs v,
  pushed-none b xs (accepted b xs),
  write_loop-pushed (accepted b xs) xs b,
)

pub write-IsValid :
    {b : ByteStream} (xs : List ℕ)
    → IsValid b
    → b.bytes_written + length xs < u64_mod
    → IsValid (write b xs).0
write-IsValid {b} xs v h = rw (write_lem xs v h) (
    ground
      (arith, length-append b.stream (take (accepted b xs) xs), length-take (accepted b xs) xs))

-- The stream after its `k` oldest bytes are gone.
abbrev pub advanced : ByteStream → ℕ → ByteStream
advanced b k = record b {
  stream = drop k b.stream;
  buffer_size = b.buffer_size - k;
  bytes_read = b.bytes_read + k;
}

bounded_len-min : (b : ByteStream) (len : ℕ) → bounded_len b len ≡ min len b.buffer_size
bounded_len-min b len = ground arith

pub pop_output_lem :
    {b : ByteStream} (len : ℕ) → IsValid b → pop_output b len ≡ advanced b (min len b.buffer_size)
unfolding pop_output
pop_output_lem {b} len v = ground (arith, bounded_len-min b len)

pub advanced-IsValid :
    {b : ByteStream} (len : ℕ) → IsValid b → IsValid (advanced b (min len b.buffer_size))
advanced-IsValid {b} len v = ground (arith, length-drop (min len b.buffer_size) b.stream)

pub pop_output-IsValid : {b : ByteStream} (len : ℕ) → IsValid b → IsValid (pop_output b len)
pop_output-IsValid {b} len v = rw (pop_output_lem len v) (advanced-IsValid len v)

-- `peek_output` copies the oldest bytes, as many as asked for or as there are.
pub peek_output_lem : {b : ByteStream} (len : ℕ) → IsValid b → peek_output b len ≡ take len b.stream
unfolding peek_output
peek_output_lem {b} len v = ground (arith, take-ge len b.stream, take-ge b.buffer_size b.stream)

-- `read` pops what `peek_output` shows, also at length 0.
pub read_lem :
    {b : ByteStream} (len : ℕ)
    → IsValid b
    → read b len ≡ (advanced b (min len b.buffer_size), take len b.stream)
unfolding read
read_lem {b} zero v = ground arith
read_lem {b} (suc n) v = ground (arith, pop_output_lem (suc n) v, peek_output_lem (suc n) v)

pub read-IsValid : {b : ByteStream} (len : ℕ) → IsValid b → IsValid (read b len).0
read-IsValid len v = rw (read_lem len v) (advanced-IsValid len v)

-- `end_input` does not stop the writer: what fits is still accepted after it.
pub write-end_input :
    {b : ByteStream} (xs : List ℕ)
    → IsValid b
    → b.bytes_written + length xs < u64_mod
    → (write (end_input b) xs).1 ≡ min (length xs) (remaining_capacity b)
write-end_input {b} xs v h =
    rw (write_lem {b = end_input b} xs (ground (arith, v)) h)
      (omega (arith, remaining_capacity-add-buffer_size v))
