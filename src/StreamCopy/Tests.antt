-- ===== src/StreamCopy/Tests.antt =====
-- Three bytes from stdin, two of them on to the socket.
use tcp_implementation.Base.{ℕ, false, ◌≡◌, refl, arith, List, [], ◌∷◌, ◌++◌, some}
use tcp_implementation.ByteStream
use tcp_implementation.ByteStream.{ByteStream}
use tcp_implementation.FileDescriptor
use tcp_implementation.FileDescriptor.{FileDescriptor, descriptor}
use tcp_implementation.StreamCopy.{StreamCopy, new, fill, drain, read_input, write_socket}
use tcp_implementation.StreamCopy.Reach.{Reach, start, reads_input, writes_socket, Reach-copies}

abbrev three : List ℕ
three = 1 ∷ 2 ∷ 3 ∷ []

abbrev outbound : ByteStream
outbound = record {
  error = false;
  input_ended = false;
  capacity = 1048576;
  buffer_size = 3;
  bytes_written = 3;
  bytes_read = 0;
  stream = three;
}

abbrev c1 : StreamCopy
c1 = record (new (descriptor 7)) {
  input = record (descriptor 0) { read_count = 1 };
  outbound = outbound;
}

c1_read : read_input (new (descriptor 7)) (some three) ≡ some c1
unfolding read_input fill new FileDescriptor.read ByteStream.new ByteStream.write
    ByteStream.write_loop ByteStream.remaining_capacity ByteStream.writeable_size
c1_read = refl

abbrev rest : ByteStream
rest = record outbound { buffer_size = 1; bytes_read = 2; stream = 3 ∷ [] }

abbrev c2 : StreamCopy
c2 = record c1 { socket = record (descriptor 7) { write_count = 1 }; outbound = rest }

c2_drained :
    drain c1.socket c1.outbound (some 2 ∷ [])
    ≡ some (record (descriptor 7) { write_count = 1 }, rest, 1 ∷ 2 ∷ [])
unfolding drain FileDescriptor.write FileDescriptor.write_rounds ByteStream.peek_output
    ByteStream.pop_output new
c2_drained = refl

c2_written : write_socket c1 (some 2 ∷ []) ≡ some c2
unfolding write_socket drain FileDescriptor.write FileDescriptor.write_rounds ByteStream.peek_output
    ByteStream.pop_output ByteStream.eof new
c2_written = refl

c2-Reach : Reach c2 three (1 ∷ 2 ∷ []) [] []
c2-Reach =
    writes_socket c1 c2 three [] [] [] (record (descriptor 7) { write_count = 1 }, rest, 1 ∷ 2 ∷ [])
      (some 2 ∷ [])
      (reads_input (new (descriptor 7)) c1 [] [] [] [] three (start (descriptor 7)) (omega arith)
        c1_read)
      c2_drained c2_written

Reach-copies_example :
    (three ≡ (1 ∷ 2 ∷ []) ++ c2.outbound.stream) × (◌≡◌ {A = List ℕ} [] ([] ++ c2.inbound.stream))
Reach-copies_example = Reach-copies c2 three (1 ∷ 2 ∷ []) [] [] c2-Reach
