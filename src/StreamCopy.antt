-- ===== src/StreamCopy.antt =====
-- apps/bidirectional_stream_copy.cc: the callbacks and the interests of the four rules. What the system
-- calls give is an argument; a callback gives `none` where it throws or blocks.
pub mod Order
pub mod Reach
mod Tests
use tcp_implementation.Base.{
  ℕ, Bool, true, false, not, ◌&&◌, ◌||◌, List, Option, none, some, ltb, if◌then◌else◌, ◌>>=◌, min,
}
use tcp_implementation.ByteStream
use tcp_implementation.ByteStream.{
  ByteStream, remaining_capacity, end_input, peek_output, pop_output, buffer_empty, eof,
}
use tcp_implementation.FileDescriptor
use tcp_implementation.FileDescriptor.{
  FileDescriptor, Written, done, throws, blocks, close_descriptor, register_write,
}

abbrev pub max_copy_length : ℕ
max_copy_length = 65536

abbrev pub copy_buffer_size : ℕ
copy_buffer_size = 1048576

-- The variables of `bidirectional_stream_copy`.
pub record StreamCopy : Type 0 where
  pub socket : FileDescriptor
  pub input : FileDescriptor
  pub output : FileDescriptor
  pub outbound : ByteStream
  pub inbound : ByteStream
  pub outbound_shutdown : Bool
  pub inbound_shutdown : Bool

unfoldable pub new : FileDescriptor → StreamCopy
new socket = record {
  socket = socket;
  input = FileDescriptor.descriptor 0;
  output = FileDescriptor.descriptor 1;
  outbound = ByteStream.new copy_buffer_size;
  inbound = ByteStream.new copy_buffer_size;
  outbound_shutdown = false;
  inbound_shutdown = false;
}

-- What rules 1 and 3 do: the descriptor is read into the stream.
unfoldable pub fill :
    FileDescriptor → ByteStream → Option (List ℕ) → Option (FileDescriptor × ByteStream)
fill f stream result = do
  r ← FileDescriptor.read f (remaining_capacity stream) result
  let written = (ByteStream.write stream r.1).0
  some (r.0, (if r.0.eof then end_input written else written))

abbrev pub done_some : Written → Option (FileDescriptor × ℕ × List ℕ)
done_some (done f n output) = some (f, n, output)
done_some throws = none
done_some blocks = none

-- What rules 2 and 4 do up to the test for the end: the stream is read into the descriptor; also the
-- bytes that the system took there.
unfoldable pub drain :
    FileDescriptor → ByteStream → List (Option ℕ) → Option (FileDescriptor × ByteStream × List ℕ)
drain f stream results = do
  let bytes_to_write = min max_copy_length stream.buffer_size
  w ← done_some (FileDescriptor.write f (peek_output stream bytes_to_write) false results)
  some (w.0, pop_output stream w.1, w.2)

-- Rule 1: read from stdin into the outbound byte stream.
unfoldable pub read_input : StreamCopy → Option (List ℕ) → Option StreamCopy
read_input c result = do
  r ← fill c.input c.outbound result
  some (record c { input = r.0; outbound = r.1 })

unfoldable pub read_input_interest : StreamCopy → Bool
read_input_interest c =
    not c.outbound.error && ltb 0 (remaining_capacity c.outbound) && not c.inbound.error

-- Rule 2: read from the outbound byte stream into the socket. `shutdown` counts as a write.
unfoldable pub write_socket : StreamCopy → List (Option ℕ) → Option StreamCopy
write_socket c results = do
  w ← drain c.socket c.outbound results
  some (
      if eof w.1
      then record c { socket = register_write w.0; outbound = w.1; outbound_shutdown = true }
      else record c { socket = w.0; outbound = w.1 })

unfoldable pub write_socket_interest : StreamCopy → Bool
write_socket_interest c =
    not (buffer_empty c.outbound) || (eof c.outbound && not c.outbound_shutdown)

-- Rule 3: read from the socket into the inbound byte stream.
unfoldable pub read_socket : StreamCopy → Option (List ℕ) → Option StreamCopy
read_socket c result = do
  r ← fill c.socket c.inbound result
  some (record c { socket = r.0; inbound = r.1 })

unfoldable pub read_socket_interest : StreamCopy → Bool
read_socket_interest c =
    not c.inbound.error && ltb 0 (remaining_capacity c.inbound) && not c.outbound.error

-- Rule 4: read from the inbound byte stream into stdout.
unfoldable pub write_output : StreamCopy → List (Option ℕ) → Option StreamCopy
write_output c results = do
  w ← drain c.output c.inbound results
  some (
      if eof w.1
      then record c { output = close_descriptor w.0; inbound = w.1; inbound_shutdown = true }
      else record c { output = w.0; inbound = w.1 })

unfoldable pub write_output_interest : StreamCopy → Bool
write_output_interest c = not (buffer_empty c.inbound) || (eof c.inbound && not c.inbound_shutdown)

-- What rules 1 and 2 do when they are cancelled, and rules 3 and 4.
abbrev pub cancel_outbound : StreamCopy → StreamCopy
cancel_outbound c = record c { outbound = end_input c.outbound }

abbrev pub cancel_inbound : StreamCopy → StreamCopy
cancel_inbound c = record c { inbound = end_input c.inbound }
