-- ===== src/StreamReassembler/History.antt =====
-- Any sequence of calls: substrings of one text in any order, and reads of the output.
use tcp_implementation.Base.{
  ℕ, ◌+◌, ◌≤◌, ◌<◌, ◌≡◌, refl, List, Bool, true, some, arith, u64_mod, length, min, take, drop,
  All-mono,
}
use tcp_implementation.ByteStream
use tcp_implementation.ByteStream.{ByteStream, read}
use tcp_implementation.ByteStream.Inv.{read_lem}
use tcp_implementation.ByteStream.Fifo.{read-Carries}
use tcp_implementation.StreamReassembler
use tcp_implementation.StreamReassembler.{Datagram, StreamReassembler, datagram, push_substring}
use tcp_implementation.StreamReassembler.Excerpts.{Fits}
use tcp_implementation.StreamReassembler.Middle.{total, WhenDone}
use tcp_implementation.StreamReassembler.Assemble.{Good, window_end}
use tcp_implementation.StreamReassembler.Calls.{PushKeeps, push_on-PushKeeps}

-- The reassembler after its owner read `len` bytes of the output.
abbrev pub after_read : StreamReassembler → ℕ → StreamReassembler
after_read r len = record r { output = (read r.output len).0 }

-- A call: an excerpt of the text that lies in the window is pushed, and the call ends, or the
-- owner reads. The counter of unassembled bytes does not wrap.
pub data Step (text : List ℕ) (r r' : StreamReassembler) : Type 0 where
  pushes :
      (bytes : List ℕ) (index : ℕ) (eof : Bool)
      → Fits text (window_end r) (datagram bytes index eof)
      → total r.storage + length text < u64_mod
      → push_substring r bytes index eof ≡ some r'
      → Step text r r'
  reads : (len : ℕ) → r' ≡ after_read r len → Step text r r'

pub data Reach (text : List ℕ) (r : StreamReassembler) : StreamReassembler → Type 0 where
  here : Reach text r r
  next : {s t : StreamReassembler} → Reach text r s → Step text s t → Reach text r t

new-Good :
    (text : List ℕ) (capacity : ℕ) → capacity < u64_mod → Good text (StreamReassembler.new capacity)
unfolding StreamReassembler.new ByteStream.new
new-Good text capacity h = record {
  carried = record { valid = ground arith; within_text = omega arith; buffered = refl };
  aligned = refl;
  fits = tt;
  counted = refl;
  ended = λ e. cc;
}

after_read-Good :
    {text : List ℕ} {r : StreamReassembler} (len : ℕ) → Good text r → Good text (after_read r len)
after_read-Good {text} {r} len g = record {
  carried = (read-Carries len g.carried).0;
  aligned = rw (read_lem len g.carried.valid) g.aligned;
  fits =
      All-mono (Fits text (window_end r)) (Fits text (window_end (after_read r len)))
        (λ d f. record { sized = f.sized; excerpt = f.excerpt; below = further d f; last = f.last })
        r.storage g.fits;
  counted = g.counted;
  ended = rw (read_lem len g.carried.valid) g.ended;
}
  where
    further :
        (d : Datagram)
        → Fits text (window_end r) d
        → d.index + d.size ≤ window_end (after_read r len)
    further d f = rw (read_lem len g.carried.valid) (omega (arith, f.below))

Step-Good :
    {text : List ℕ} {r r' : StreamReassembler}
    → length text < u64_mod
    → Good text r
    → Step text r r'
    → Good text r'
unfolding push_substring
Step-Good {text} {r} hl g (pushes bytes index eof f h e) =
    let k : WhenDone (PushKeeps text hl r) (push_substring r bytes index eof) =
      push_on-PushKeeps text hl r.storage r (datagram bytes index eof) refl h g f in
    (rw e at k).good
Step-Good hl g (reads len e) = rw e (after_read-Good len g)

Reach-Good :
    {text : List ℕ} {r r' : StreamReassembler}
    → length text < u64_mod
    → Good text r
    → Reach text r r'
    → Good text r'
Reach-Good hl g here = g
Reach-Good hl g (next p s) = Step-Good hl (Reach-Good hl g p) s

-- Whatever order, overlap or repetition the excerpts of a text come in, as long as they lie in the
-- window and the calls end: the next read of the output returns the bytes of the text from the
-- reader's place on, as many as are asked for and buffered, and an output that is ended has all
-- of the text written.
pub Reach-reads_text :
    {text : List ℕ} {capacity : ℕ} {r : StreamReassembler} (len : ℕ)
    → length text < u64_mod
    → capacity < u64_mod
    → Reach text (StreamReassembler.new capacity) r
    → ((read r.output len).1 ≡ take (min len r.output.buffer_size) (drop r.output.bytes_read text))
      × (r.output.input_ended ≡ true → r.output.bytes_written ≡ length text)
      × (r.output.bytes_written ≤ length text)
Reach-reads_text {text} {capacity} {r} len hl hc p =
    let g : Good text r = Reach-Good hl (new-Good text capacity hc) p in
    ((read-Carries len g.carried).1, g.ended, g.carried.within_text)
