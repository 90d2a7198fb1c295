-- ===== src/StreamReassembler/Limits.antt =====
-- What `push_substring` does at the end of the window, and to datagrams that overlap.
use tcp_implementation.Base.{
  ℕ, ◌+◌, ◌-◌, ◌<◌, ◌≡◌, refl, ap, ◌∙◌, List, [], ◌∷◌, ◌++◌, take, Bool, true, false, some, arith,
  u64_mod, length, drop, length-drop, sub64, min,
}
use mathlib.Core.Option
use native.Mathlib.Numerals.{add-one}
use tcp_implementation.ByteStream.{remaining_capacity, write}
use tcp_implementation.ByteStream.Inv.{
  IsValid, accepted, write_lem, remaining_capacity-add-buffer_size,
}
use tcp_implementation.StreamReassembler.{
  Datagram, StreamReassembler, datagram, inspect, break_off, absorb, scan, stops, middle_loop,
  store, missing_middle_handler, overlap_merger, overlap_handler, arrive, assembled, append_next,
  indicator, close, resume, push_on, push_substring, sort,
}

-- A substring that starts before the next index and goes on past the room, in a well-formed output
-- whose count is the next index: of its bytes from the next index on, those that fit are appended,
-- yet the next index moves to the substring's end, past what is written. The numbers fit 64 bits.
pub overlap_handler_skips :
    (r : StreamReassembler) (dg : Datagram)
    → IsValid r.output
    → r.next_assembling_index ≡ r.output.bytes_written
    → dg.index < r.next_assembling_index
    → r.next_assembling_index + remaining_capacity r.output < dg.index + length dg.bytes
    → dg.index + length dg.bytes < u64_mod
    → let (r', data_exceeded) = overlap_handler r dg in
      (r'.next_assembling_index ≡ dg.index + length dg.bytes)
      × (r'.output.bytes_written ≡ r.output.bytes_written + remaining_capacity r.output)
      × (r'.output.stream
          ≡ r.output.stream
            ++ take
                (remaining_capacity r.output)
                (drop (r.next_assembling_index - dg.index) dg.bytes))
      × (r'.output.bytes_written < r'.next_assembling_index)
      × (data_exceeded ≡ true)
unfolding overlap_handler
overlap_handler_skips r dg v a lo hi fit = (
  omega (arith, cut),
  omega (arith, cut, w, room),
  appended,
  omega (arith, cut, w, room),
  ground (arith, cut, w, room),
)
  where
    k : ℕ
    k = sub64 r.next_assembling_index dg.index

    room : remaining_capacity r.output + r.output.buffer_size ≡ r.output.capacity
    room = remaining_capacity-add-buffer_size v

    cut : length (drop k dg.bytes) ≡ dg.index + length dg.bytes - r.next_assembling_index
    cut = omega (arith, length-drop k dg.bytes)

    w :
        (write r.output (drop k dg.bytes)).0.bytes_written
        ≡ r.output.bytes_written
          + min (length (drop k dg.bytes)) (r.output.capacity - r.output.buffer_size)
    w = rw (write_lem (drop k dg.bytes) v (omega (arith, cut)))

    appended :
        (write r.output (drop k dg.bytes)).0.stream
        ≡ r.output.stream
          ++ take (remaining_capacity r.output) (drop (r.next_assembling_index - dg.index) dg.bytes)
    appended =
        let from : k ≡ r.next_assembling_index - dg.index = omega (arith, hi, fit) in
        let fills : accepted r.output (drop k dg.bytes) ≡ remaining_capacity r.output =
          omega (arith, cut, room) in
        rw (write_lem (drop k dg.bytes) v (omega (arith, cut))) (
          ap (λ m. r.output.stream ++ take m (drop k dg.bytes)) fills
          ∙ ap (λ m. r.output.stream ++ take (remaining_capacity r.output) (drop m dg.bytes)) from)

arrive_next :
    (r : StreamReassembler) (dg : Datagram)
    → dg.index ≡ r.next_assembling_index
    → r.next_assembling_index < indicator r
    → 0 < remaining_capacity r.output
    → arrive r dg ≡ assembled (append_next r dg.bytes) false
unfolding arrive
arrive_next r dg e ahead room = ground arith

resume_unstored :
    (r r' : StreamReassembler) (dg : Datagram) (b : Bool)
    → resume r dg false some (assembled r' b) ≡ some (close dg b r')
unfolding resume
resume_unstored r r' dg b = ground arith

push_on_next :
    (r : StreamReassembler) (dg : Datagram)
    → dg.index ≡ r.next_assembling_index
    → r.next_assembling_index < indicator r
    → 0 < remaining_capacity r.output
    → push_on [] r dg ≡ some (close dg false (append_next r dg.bytes))
unfolding push_on
push_on_next r dg e ahead room =
    ap (resume r dg false some) (arrive_next r dg e ahead room)
    ∙ resume_unstored r (append_next r dg.bytes) dg false

-- The last substring, in its turn and in the window, with nothing stored and some room, but longer
-- than the room: only its front that fits is written, and the output, which is well formed, is ended
-- all the same. The count fits 64 bits.
pub push_substring_ends_early :
    (r : StreamReassembler) (bytes : List ℕ)
    → IsValid r.output
    → r.next_assembling_index < indicator r
    → r.storage ≡ []
    → 0 < remaining_capacity r.output
    → remaining_capacity r.output < length bytes
    → r.output.bytes_written + length bytes < u64_mod
    → (r' : StreamReassembler) × (push_substring r bytes r.next_assembling_index true ≡ some r')
      × (r'.output.input_ended ≡ true)
      × (r'.output.bytes_written ≡ r.output.bytes_written + remaining_capacity r.output)
      × (r'.output.stream ≡ r.output.stream ++ take (remaining_capacity r.output) bytes)
unfolding push_substring close append_next
push_substring_ends_early r bytes v ahead e room long fit = (
  close dg false (append_next r bytes),
  ap (λ st. push_on st r dg) e ∙ push_on_next r dg refl ahead room,
  refl,
  rw (write_lem bytes v fit) (omega (arith, remaining_capacity-add-buffer_size v)),
  rw (write_lem bytes v fit) (ap (λ m. r.output.stream ++ take m bytes) fills),
)
  where
    dg : Datagram
    dg = datagram bytes r.next_assembling_index true

    fills : accepted r.output bytes ≡ remaining_capacity r.output
    fills = omega (arith, remaining_capacity-add-buffer_size v)

inspect_past :
    (dg ptr : Datagram)
    → ptr.index < dg.index
    → ptr.index + ptr.size < dg.index + dg.size
    → dg.index + dg.size < u64_mod
    → inspect dg ptr ≡ break_off
unfolding inspect
inspect_past dg ptr lo hi fit = ground arith

scan_past :
    (dg ptr : Datagram) (rest : List Datagram)
    → inspect dg ptr ≡ break_off
    → scan [] (ptr ∷ rest) dg ≡ stops
unfolding scan
scan_past dg ptr rest e = rw (e, scan)

middle_loop_stops :
    (fuel : ℕ) (dg : Datagram) (u : ℕ) (storage : List Datagram)
    → scan [] storage dg ≡ stops
    → middle_loop (fuel + 1) dg u storage ≡ some (u, storage, some dg)
unfolding middle_loop
middle_loop_stops fuel dg u storage e = rw add-one (rw (e, middle_loop))

-- A datagram that starts inside the first stored one and ends past it is stored beside it, not
-- merged: `unassembled_bytes` counts the bytes that they share twice.
pub missing_middle_handler_counts_twice :
    (r : StreamReassembler) (dg ptr : Datagram) (rest : List Datagram)
    → r.storage ≡ ptr ∷ rest
    → ptr.index < dg.index
    → dg.index < ptr.index + ptr.size
    → ptr.index + ptr.size < dg.index + dg.size
    → dg.index + dg.size < u64_mod
    → r.unassembled_bytes + dg.size < u64_mod
    → (r' : StreamReassembler) × (missing_middle_handler r dg ≡ some r')
      × (r'.unassembled_bytes ≡ r.unassembled_bytes + dg.size)
      × (r'.storage ≡ sort (dg ∷ r.storage))
unfolding missing_middle_handler store
missing_middle_handler_counts_twice r dg ptr rest e lo mid hi fit sum = (
  store r (r.unassembled_bytes, r.storage, some dg),
  ap (Option.map (store r)) (
      middle_loop_stops (length r.storage) dg r.unassembled_bytes r.storage
        (ap (λ st. scan [] st dg) e ∙ scan_past dg ptr rest (inspect_past dg ptr lo hi fit))),
  omega arith,
  refl,
)

inspect_merge :
    (dg ptr : Datagram)
    → dg.index < ptr.index
    → ptr.index < dg.index + dg.size
    → dg.index + dg.size < ptr.index + ptr.size
    → ptr.index + ptr.size < u64_mod
    → inspect dg ptr ≡ absorb (overlap_merger dg ptr) ptr.size
unfolding inspect
inspect_merge dg ptr lo mid hi fit = ground arith

middle_loop_merge :
    (dg ptr d : Datagram) (u n : ℕ)
    → inspect dg ptr ≡ absorb d n
    → middle_loop 2 dg u (ptr ∷ []) ≡ some (sub64 u n, [], some d)
unfolding middle_loop scan
middle_loop_merge dg ptr d u n e = rw (e, middle_loop, scan)

overlap_merger_tail :
    (dg ptr : Datagram)
    → ptr.index < dg.index + dg.size
    → dg.index + dg.size < ptr.index + ptr.size
    → ptr.index + ptr.size < u64_mod
    → ptr.size ≡ length ptr.bytes
    → ((overlap_merger dg ptr).index + (overlap_merger dg ptr).size ≡ ptr.index + ptr.size)
      × ((overlap_merger dg ptr).eof ≡ dg.eof)
unfolding overlap_merger
overlap_merger_tail dg ptr mid hi fit sp =
    ground (arith, length-drop (dg.index + dg.size - ptr.index) ptr.bytes)

-- A stored datagram that ends the stream, merged into one that overlaps it from the left, loses
-- its `eof`: the last byte of the stream is stored, and nothing says that it is the last.
pub missing_middle_handler_loses_eof :
    (r : StreamReassembler) (dg ptr : Datagram)
    → r.storage ≡ ptr ∷ []
    → dg.index < ptr.index
    → ptr.index < dg.index + dg.size
    → dg.index + dg.size < ptr.index + ptr.size
    → ptr.index + ptr.size < u64_mod
    → ptr.size ≡ length ptr.bytes
    → dg.eof ≡ false
    → (r' : StreamReassembler) × (d : Datagram) × (missing_middle_handler r dg ≡ some r')
      × (r'.storage ≡ d ∷ [])
      × (d.index + d.size ≡ ptr.index + ptr.size)
      × (d.eof ≡ false)
unfolding missing_middle_handler store sort
missing_middle_handler_loses_eof r dg ptr e lo mid hi fit sp nd = (
  store r (sub64 r.unassembled_bytes ptr.size, [], some (overlap_merger dg ptr)),
  overlap_merger dg ptr,
  ap (Option.map (store r)) (
      ap (λ st. middle_loop (length st + 1) dg r.unassembled_bytes st) e
      ∙ middle_loop_merge dg ptr _ r.unassembled_bytes _ (inspect_merge dg ptr lo mid hi fit)),
  refl,
  (overlap_merger_tail dg ptr mid hi fit sp).0,
  (overlap_merger_tail dg ptr mid hi fit sp).1 ∙ nd,
)
