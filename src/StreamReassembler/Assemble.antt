-- ===== src/StreamReassembler/Assemble.antt =====
-- One arrival in push_substring, on excerpts of one text that respect the window.
use tcp_implementation.Base.{
  ℕ, ◌+◌, ◌-◌, ◌≤◌, ◌<◌, ◌≡◌, refl, ◌∙◌, List, true, false, arith, u64_mod, length, drop, All,
  sub64, length-drop,
}
use tcp_implementation.ByteStream.{ByteStream, write}
use tcp_implementation.ByteStream.Inv.{write_lem, remaining_capacity-add-buffer_size}
use tcp_implementation.ByteStream.Fifo.{IsExcerpt, Carries, write-Carries}
use tcp_implementation.StreamReassembler.{
  Datagram, StreamReassembler, Arrival, ignored, missing, assembled, append_next, overlap_handler,
  arrive,
}
use tcp_implementation.StreamReassembler.Excerpts.{Fits, IsExcerpt-drop}
use tcp_implementation.StreamReassembler.Middle.{total}

-- The first place of the text that the window does not reach.
abbrev pub window_end : StreamReassembler → ℕ
window_end r = r.output.bytes_read + r.output.capacity

-- The reassembler has written exactly the front of the text, holds excerpts of it, and has ended
-- its output only if all of it is written.
pub record Good (text : List ℕ) (r : StreamReassembler) : Type 0 where
  pub carried : Carries text r.output
  pub aligned : r.next_assembling_index ≡ r.output.bytes_written
  pub fits : All (Fits text (window_end r)) r.storage
  pub counted : r.unassembled_bytes ≡ total r.storage
  pub ended : r.output.input_ended ≡ true → r.output.bytes_written ≡ length text

module _ (text : List ℕ) (hl : length text < u64_mod) where
  -- What fits is written whole.
  write_all :
      {b : ByteStream} (xs : List ℕ)
      → Carries text b
      → IsExcerpt text b.bytes_written xs
      → b.bytes_written + length xs ≤ b.bytes_read + b.capacity
      → let b' = (write b xs).0 in
        (b'.bytes_written ≡ b.bytes_written + length xs)
        × (b'.bytes_read ≡ b.bytes_read)
        × (b'.capacity ≡ b.capacity)
        × (b'.input_ended ≡ b.input_ended)
  write_all {b} xs c x h =
      rw (write_lem xs c.valid (omega (arith, x.inside)))
        (omega (arith, c.valid.balance), refl, refl, refl)

  -- What an arrival in order does to the output, and what it leaves alone.
  pub record Assembled (r : StreamReassembler) (dg : Datagram) (r' : StreamReassembler)
      : Type 0 where
    pub carried : Carries text r'.output
    pub aligned : r'.next_assembling_index ≡ r'.output.bytes_written
    pub same_storage : r'.storage ≡ r.storage
    pub same_count : r'.unassembled_bytes ≡ r.unassembled_bytes
    pub same_read : r'.output.bytes_read ≡ r.output.bytes_read
    pub same_capacity : r'.output.capacity ≡ r.output.capacity
    pub same_ended : r'.output.input_ended ≡ r.output.input_ended
    pub reached : dg.index + dg.size ≤ r'.output.bytes_written
    pub grown : r.output.bytes_written ≤ r'.output.bytes_written

  -- Both cases write the excerpt that comes next, and count it.
  written-Assembled :
      {r : StreamReassembler} {dg : Datagram} (xs : List ℕ) (next : ℕ)
      → Good text r
      → IsExcerpt text r.output.bytes_written xs
      → r.output.bytes_written + length xs ≤ window_end r
      → next ≡ r.output.bytes_written + length xs
      → dg.index + dg.size ≤ r.output.bytes_written + length xs
      → Assembled r dg (record r { output = (write r.output xs).0; next_assembling_index = next })
  written-Assembled {r} xs next g x h e t = record {
    carried = write-Carries hl g.carried x;
    aligned = omega (arith, all.0);
    same_storage = refl;
    same_count = refl;
    same_read = all.1;
    same_capacity = all.2;
    same_ended = all.3;
    reached = omega (arith, all.0);
    grown = omega (arith, all.0);
  }
    where
      all :
          let b' = (write r.output xs).0 in
          (b'.bytes_written ≡ r.output.bytes_written + length xs)
          × (b'.bytes_read ≡ r.output.bytes_read)
          × (b'.capacity ≡ r.output.capacity)
          × (b'.input_ended ≡ r.output.input_ended)
      all = write_all xs g.carried x h

  append_next-Assembled :
      {r : StreamReassembler} {dg : Datagram}
      → Good text r
      → Fits text (window_end r) dg
      → dg.index ≡ r.next_assembling_index
      → Assembled r dg (append_next r dg.bytes)
  unfolding append_next
  append_next-Assembled {r} {dg} g f e =
      written-Assembled dg.bytes _ g (rw (← (e ∙ g.aligned)) f.excerpt)
        (omega (arith, g.aligned, f.sized, f.below))
        (ground (
          arith,
          g.aligned,
          f.sized,
          f.below,
          f.excerpt.inside,
          remaining_capacity-add-buffer_size g.carried.valid,
          g.carried.valid.balance,
        ))
        (omega (arith, g.aligned, f.sized))

  overlap_handler-Assembled :
      {r : StreamReassembler} {dg : Datagram}
      → Good text r
      → Fits text (window_end r) dg
      → dg.index < r.next_assembling_index
      → r.next_assembling_index < dg.index + dg.size
      → Assembled r dg (overlap_handler r dg).0 × ((overlap_handler r dg).1 ≡ false)
  unfolding overlap_handler
  overlap_handler-Assembled {r} {dg} g f lo hi = (done, ground (arith, done.aligned))
    where
      k : ℕ
      k = sub64 r.next_assembling_index dg.index

      place : dg.index + k ≡ r.output.bytes_written
      place = omega (arith, g.aligned, g.carried.valid.written_fits)

      cut : length (drop k dg.bytes) ≡ dg.size - k
      cut = omega (arith, length-drop k dg.bytes, f.sized)

      part : IsExcerpt text r.output.bytes_written (drop k dg.bytes)
      part =
          rw (← place) (
            IsExcerpt-drop dg.index k dg.bytes (omega (arith, place, g.aligned, f.sized)) f.excerpt)

      done : Assembled r dg (overlap_handler r dg).0
      done =
          written-Assembled (drop k dg.bytes) _ g part
            (omega (arith, cut, place, f.below, g.aligned))
            (omega (arith, cut, place, g.aligned, f.excerpt.inside, f.sized))
            (omega (arith, cut, place, g.aligned))

  -- An arrival that is assembled reaches its own end, and no data is left over.
  abbrev pub ArrivesWell : StreamReassembler → Datagram → Arrival → Type 0
  ArrivesWell r dg ignored = Unit {0}
  ArrivesWell r dg missing = Unit {0}
  ArrivesWell r dg (assembled r' exceeded) = Assembled r dg r' × (exceeded ≡ false)

  repeated-Assembled :
      {r : StreamReassembler} {dg : Datagram}
      → Good text r
      → dg.index + dg.size ≤ r.next_assembling_index
      → Assembled r dg r
  repeated-Assembled g h = record {
    carried = g.carried;
    aligned = g.aligned;
    same_storage = refl;
    same_count = refl;
    same_read = refl;
    same_capacity = refl;
    same_ended = refl;
    reached = omega (arith, g.aligned);
    grown = omega arith;
  }

  pub arrive-Well :
      {r : StreamReassembler} {dg : Datagram}
      → Good text r
      → Fits text (window_end r) dg
      → ArrivesWell r dg (arrive r dg)
  unfolding arrive
  arrive-Well {r} {dg} g f = ground (
    arith,
    f.sized,
    f.excerpt.inside,
    append_next-Assembled g f,
    overlap_handler-Assembled g f,
    repeated-Assembled {r = r} {dg = dg} g,
  )
