-- ===== src/FileDescriptor/Transfer.antt =====
-- How many bytes file_descriptor.cc moves.
use tcp_implementation.Base.{
  ℕ, ◌+◌, ◌≤◌, ◌<◌, ◌≡◌, Bool, true, ◌&&◌, List, [], ◌∷◌, ◌++◌, take, sym, ap, ◌∙◌, Bool-cases,
  length-take, length-append, inl, inr, take-append-drop, take-add, take-ge, not, false, Option,
  none, some, ltb, ◌==◌, if◌then◌else◌, length, drop, arith, length-drop, add64,
}
use tcp_implementation.FileDescriptor.{
  FileDescriptor, Written, read, write, write_rounds, done, throws, blocks, after_bytes,
  register_write,
}

-- What a read that does not throw comes to.
pub record Reads (f f' : FileDescriptor) (limit : ℕ) (result : Option (List ℕ)) (bytes : List ℕ)
    : Type 0 where
  pub given : result ≡ some bytes
  pub limited : length bytes ≤ limit
  pub at_end : f'.eof ≡ (if ltb 0 limit && length bytes == 0 then true else f.eof)

-- `read` gives what the system call gave, at most `limit` bytes, and is at the end of the file exactly
-- if it was before or if it asked for some bytes and there were none.
pub read-Reads :
    (f f' : FileDescriptor) (limit : ℕ) (result : Option (List ℕ)) (bytes : List ℕ)
    → read f limit result ≡ some (f', bytes)
    → Reads f f' limit result bytes
unfolding read
read-Reads f f' limit none bytes e = absurd (ground (arith, e))
read-Reads f f' limit (some given) bytes e = ground (arith, e)

after_bytes-done :
    (taken : List ℕ) (w : Written) (f : FileDescriptor) (n : ℕ) (output : List ℕ)
    → after_bytes taken w ≡ done f n output
    → (rest : List ℕ) × (w ≡ done f n rest) × (output ≡ taken ++ rest)
after_bytes-done taken (done f' n' rest) f n output e = (rest, ground (arith, e), ground (arith, e))
after_bytes-done taken throws f n output e = absurd (ground (arith, e))
after_bytes-done taken blocks f n output e = absurd (ground (arith, e))

-- What a write of `buffer` that returns comes to, where `total` bytes were written before.
pub record Writes (buffer : List ℕ) (write_all : Bool) (total n : ℕ) (output : List ℕ)
    : Type 0 where
  pub counted : n ≡ total + length output
  pub within : length output ≤ length buffer
  pub front : output ≡ take (length output) buffer
  pub whole : write_all ≡ true → output ≡ buffer

last-Writes :
    (buffer : List ℕ) (write_all : Bool) (total k : ℕ)
    → total + length buffer < 18446744073709551616
    → k ≤ length buffer
    → (write_all && not (length (drop k buffer) == 0)) ≡ false
    → Writes buffer write_all total (add64 total k) (take k buffer)
last-Writes buffer write_all total k h inside over =
    let cut : length (take k buffer) ≡ k = omega (arith, length-take k buffer) in
    record {
      counted = omega (arith, cut);
      within = omega (arith, cut);
      front = ap (λ m. take m buffer) (sym cut);
      whole = λ all.
          let none_left : length (drop k buffer) ≡ 0 = ground (arith, over, all) in
          take-ge k buffer (omega (arith, none_left, length-drop k buffer));
    }

further-Writes :
    (buffer : List ℕ) (write_all : Bool) (total k n : ℕ) (rest : List ℕ)
    → total + length buffer < 18446744073709551616
    → k ≤ length buffer
    → Writes (drop k buffer) write_all (add64 total k) n rest
    → Writes buffer write_all total n (take k buffer ++ rest)
further-Writes buffer write_all total k n rest h inside w =
    let cut : length (take k buffer) ≡ k = omega (arith, length-take k buffer) in
    let long : length (take k buffer ++ rest) ≡ k + length rest =
      omega (arith, cut, length-append (take k buffer) rest) in
    record {
      counted = omega (arith, long, w.counted);
      within = omega (arith, long, w.within, length-drop k buffer);
      front =
          ap (λ t. take k buffer ++ t) w.front
          ∙ sym (take-add k (length rest) (length (take k buffer ++ rest)) buffer long);
      whole = λ all. ap (λ t. take k buffer ++ t) (w.whole all) ∙ take-append-drop k buffer;
    }

write_rounds-Writes :
    (f f' : FileDescriptor) (buffer : List ℕ) (write_all : Bool) (total n : ℕ) (output : List ℕ)
    (results : List (Option ℕ))
    → total + length buffer < 18446744073709551616
    → write_rounds f buffer write_all total results ≡ done f' n output
    → Writes buffer write_all total n output
unfolding write_rounds
write_rounds-Writes f f' buffer write_all total n output [] h e = absurd (ground (arith, e))
write_rounds-Writes f f' buffer write_all total n output (none ∷ results) h e =
    absurd (ground (arith, e))
write_rounds-Writes f f' buffer write_all total n output (some k ∷ results) h e =
    let later = write_rounds (register_write f) (drop k buffer) write_all (add64 total k) results in
    elim (Bool-cases (write_all && not (length (drop k buffer) == 0))) [
      | inl again ↦
          let inside : k ≤ length buffer = ground (arith, e) in
          let e' : after_bytes (take k buffer) later ≡ done f' n output =
            ground (arith, e, again) in
          let (rest, is_done, is_output) = after_bytes-done (take k buffer) later f' n output e' in
          let below =
            write_rounds-Writes (register_write f) f' (drop k buffer) write_all (add64 total k) n
              rest results (omega (arith, inside, length-drop k buffer)) is_done in
          rw is_output (further-Writes buffer write_all total k n rest h inside below)
      | inr over ↦
          let inside : k ≤ length buffer = ground (arith, e, over) in
          let is_output : take k buffer ≡ output = ground (arith, e, over) in
          let is_count : add64 total k ≡ n = ground (arith, e, over) in
          rw⁻¹ is_output (rw⁻¹ is_count (last-Writes buffer write_all total k h inside over))
    ]

-- `write` gives the system the front of the buffer, returns how many bytes that is, and with
-- `write_all` it is the whole buffer.
pub write-Writes :
    (f f' : FileDescriptor) (buffer : List ℕ) (write_all : Bool) (n : ℕ) (output : List ℕ)
    (results : List (Option ℕ))
    → length buffer < 18446744073709551616
    → write f buffer write_all results ≡ done f' n output
    → Writes buffer write_all 0 n output
unfolding write
write-Writes f f' buffer write_all n output results h e =
    write_rounds-Writes f f' buffer write_all 0 n output results (omega arith) e
