-- ===== src/StreamCopy/Order.antt =====
-- What the rules of bidirectional_stream_copy.cc do to a stream and to the order of its bytes.
use tcp_implementation.Base.{
  ℕ, ◌+◌, ◌≤◌, ◌<◌, ◌≡◌, sym, ap, ◌∙◌, Bool, true, false, List, ◌++◌, append_assoc, Option, some,
  if◌then◌else◌, length, take, drop, min, arith, length-append, length-take, take-ge, take-take,
  take-append-drop, Option-cases, inl, inr, u64_mod,
}
use tcp_implementation.ByteStream
use tcp_implementation.ByteStream.{
  ByteStream, remaining_capacity, end_input, peek_output, pop_output, eof,
}
use tcp_implementation.ByteStream.Inv.{
  IsValid, accepted, write_lem, write-IsValid, pop_output_lem, pop_output-IsValid, peek_output_lem,
  remaining_capacity-add-buffer_size,
}
use tcp_implementation.FileDescriptor
use tcp_implementation.FileDescriptor.{FileDescriptor, Written, done, throws, blocks}
use tcp_implementation.FileDescriptor.Transfer.{read-Reads, write-Writes}
use tcp_implementation.StreamCopy.{fill, drain, done_some, max_copy_length}

-- A stream between the bytes that came, `got`, and those that went, `sent`.
pub record InOrder (got sent : List ℕ) (b : ByteStream) : Type 0 where
  pub valid : IsValid b
  pub counted : b.bytes_written ≡ length got
  pub order : got ≡ sent ++ b.stream

written-InOrder :
    (got sent bytes : List ℕ) (b : ByteStream)
    → InOrder got sent b
    → length got + length bytes < u64_mod
    → length bytes ≤ remaining_capacity b
    → InOrder (got ++ bytes) sent (ByteStream.write b bytes).0
written-InOrder got sent bytes b v fits room =
    let bound : b.bytes_written + length bytes < u64_mod = omega (arith, v.counted) in
    let all : accepted b bytes ≡ length bytes =
      omega (arith, remaining_capacity-add-buffer_size v.valid) in
    let whole : take (accepted b bytes) bytes ≡ bytes =
      take-ge (accepted b bytes) bytes (omega (arith, all)) in
    let e = write_lem bytes v.valid bound in
    record {
      valid = write-IsValid bytes v.valid bound;
      counted = rw e (omega (arith, all, v.counted, length-append got bytes));
      order = rw e (rw whole (rw v.order (append_assoc sent b.stream bytes)));
    }

pub ended-InOrder :
    (got sent : List ℕ) (b : ByteStream) → InOrder got sent b → InOrder got sent (end_input b)
ended-InOrder got sent b v = ground (arith, v)

if_ended :
    (got sent : List ℕ) (b : ByteStream) (ended : Bool)
    → InOrder got sent b
    → InOrder got sent (if ended then end_input b else b)
if_ended got sent b true v = ended-InOrder got sent b v
if_ended got sent b false v = v

pub fill-InOrder :
    (got sent bytes : List ℕ) (f f' : FileDescriptor) (b b' : ByteStream)
    → InOrder got sent b
    → length got + length bytes < u64_mod
    → fill f b (some bytes) ≡ some (f', b')
    → InOrder (got ++ bytes) sent b'
unfolding fill
fill-InOrder got sent bytes f f' b b' v fits e =
    elim (Option-cases (FileDescriptor.read f (remaining_capacity b) (some bytes))) [
      | inl thrown ↦ absurd (ground (arith, e, thrown))
      | inr (r, is_read) ↦
          let reads = read-Reads f r.0 (remaining_capacity b) (some bytes) r.1 is_read in
          let same : bytes ≡ r.1 = ground (arith, reads.given) in
          let written =
            written-InOrder got sent r.1 b v (ground (arith, same, fits)) reads.limited in
          let b'_is : (if r.0.eof
                then end_input (ByteStream.write b r.1).0
                else (ByteStream.write b r.1).0)
              ≡ b' =
            ground (arith, e, is_read) in
          rw⁻¹ b'_is
            (rw same (if_ended (got ++ r.1) sent (ByteStream.write b r.1).0 r.0.eof written))
    ]

popped-InOrder :
    (got sent : List ℕ) (b : ByteStream) (n : ℕ)
    → InOrder got sent b
    → n ≤ length b.stream
    → InOrder got (sent ++ take n b.stream) (pop_output b n)
popped-InOrder got sent b n v within =
    let all : min n b.buffer_size ≡ n = omega (arith, v.valid.counted) in
    let e = pop_output_lem n v.valid in
    record {
      valid = pop_output-IsValid n v.valid;
      counted = rw e v.counted;
      order = rw e (
          rw all (
            v.order
            ∙ ap (λ t. sent ++ t) (sym (take-append-drop n b.stream))
            ∙ sym (append_assoc sent (take n b.stream) (drop n b.stream))));
    }

done_some-done :
    (w : Written) (r : FileDescriptor × ℕ × List ℕ) → done_some w ≡ some r → w ≡ done r.0 r.1 r.2
done_some-done (done f n output) r e = ground (arith, e)
done_some-done throws r e = absurd (ground (arith, e))
done_some-done blocks r e = absurd (ground (arith, e))

pub drain-InOrder :
    (got sent : List ℕ) (f f' : FileDescriptor) (b b' : ByteStream) (output : List ℕ)
    (results : List (Option ℕ))
    → InOrder got sent b
    → drain f b results ≡ some (f', b', output)
    → InOrder got (sent ++ output) b'
unfolding drain
drain-InOrder got sent f f' b b' output results v e =
    let asked = min max_copy_length b.buffer_size in
    let outcome = FileDescriptor.write f (peek_output b asked) false results in
    elim (Option-cases (done_some outcome)) [
      | inl thrown ↦ absurd (ground (arith, e, thrown))
      | inr (w, is_written) ↦
          let shown = ap length (peek_output_lem asked v.valid) in
          let size = length-take asked b.stream in
          let fits : length (peek_output b asked) < 18446744073709551616 =
            omega (arith, shown, size) in
          let moved =
            write-Writes f w.0 (peek_output b asked) false w.1 w.2 results fits
              (done_some-done outcome w is_written) in
          let output_is : w.2 ≡ output = ground (arith, e, is_written) in
          let count : length w.2 ≡ w.1 = omega (arith, moved.counted) in
          let took : w.2 ≡ take w.1 b.stream =
            moved.front
            ∙ ap (λ t. take (length w.2) t) (peek_output_lem asked v.valid)
            ∙ take-take (length w.2) asked b.stream (omega (arith, moved.within, shown, size))
            ∙ ap (λ m. take m b.stream) count in
          let b'_is : pop_output b w.1 ≡ b' = ground (arith, e, is_written) in
          let popped =
            popped-InOrder got sent b w.1 v
              (omega (arith, moved.counted, moved.within, shown, size)) in
          rw⁻¹ b'_is (rw⁻¹ output_is (rw took popped))
    ]
