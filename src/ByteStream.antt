-- ===== src/ByteStream.antt =====
-- libsponge/byte_stream.hh and .cc: a flow-controlled in-memory byte stream.
-- A byte is any number: the stream only moves bytes.
pub mod Inv
pub mod Queue
pub mod Fifo
mod Tests
use tcp_implementation.Base.{
  ℕ, zero, suc, ◌+◌, Bool, true, false, ◌&&◌, ◌||◌, not, List, [], ◌∷◌, ◌++◌, ltb, ◌==◌,
  if◌then◌else◌, length, take, drop, add64, sub64,
}

-- `class ByteStream`. `stream` is `_stream`, oldest byte first.
pub record ByteStream : Type 0 where
  pub error : Bool
  pub input_ended : Bool
  pub capacity : ℕ
  pub buffer_size : ℕ
  pub bytes_written : ℕ
  pub bytes_read : ℕ
  pub stream : List ℕ

unfoldable pub new : ℕ → ByteStream
new capacity = record {
  error = false;
  input_ended = false;
  capacity = capacity;
  buffer_size = 0;
  bytes_written = 0;
  bytes_read = 0;
  stream = [];
}

unfoldable pub remaining_capacity : ByteStream → ℕ
remaining_capacity b = sub64 b.capacity b.buffer_size

-- The loop of `write`: the first `n` bytes of `data` are pushed one by one.
unfoldable pub write_loop : ℕ → List ℕ → ByteStream → ByteStream
write_loop zero bytes b = b
write_loop (suc n) [] b = b
write_loop (suc n) (x ∷ xs) b = write_loop n xs (record b {
  stream = b.stream ++ x ∷ [];
  buffer_size = add64 b.buffer_size 1;
  bytes_written = add64 b.bytes_written 1;
})

unfoldable pub writeable_size : ByteStream → List ℕ → ℕ
unfolding remaining_capacity
writeable_size b bytes =
    if ltb (remaining_capacity b) (length bytes) then remaining_capacity b else length bytes

-- `write(data)`: the new stream, and how many bytes were accepted.
unfoldable pub write : ByteStream → List ℕ → ByteStream × ℕ
unfolding remaining_capacity writeable_size
write b bytes =
    if remaining_capacity b == 0 || length bytes == 0
    then (b, 0)
    else (write_loop (writeable_size b bytes) bytes b, writeable_size b bytes)

abbrev pub end_input : ByteStream → ByteStream
end_input b = record b { input_ended = true }

abbrev pub set_error : ByteStream → ByteStream
set_error b = record b { error = true }

-- The length that `peek_output` and `pop_output` cut `len` to.
abbrev pub bounded_len : ByteStream → ℕ → ℕ
bounded_len b len = if ltb b.buffer_size len then b.buffer_size else len

unfoldable pub peek_output : ByteStream → ℕ → List ℕ
peek_output b len = take (bounded_len b len) b.stream

unfoldable pub pop_output : ByteStream → ℕ → ByteStream
pop_output b len = record b {
  stream = drop (bounded_len b len) b.stream;
  buffer_size = sub64 b.buffer_size (bounded_len b len);
  bytes_read = add64 b.bytes_read (bounded_len b len);
}

-- `read(len)`: the new stream, and the bytes that were popped.
unfoldable pub read : ByteStream → ℕ → ByteStream × List ℕ
unfolding peek_output pop_output
read b len = if len == 0 then (b, []) else (pop_output b len, peek_output b len)

unfoldable pub buffer_empty : ByteStream → Bool
buffer_empty b = length b.stream == 0

unfoldable pub eof : ByteStream → Bool
unfolding buffer_empty
eof b = b.input_ended && buffer_empty b
