-- ===== src/TcpReceiver/Order.antt =====
-- The receiver and one text: what its acknowledgment number says of the bytes that it has.
use tcp_implementation.Base.{
  ℕ, ◌+◌, ◌-◌, ◌^◌, ◌≤◌, ◌<◌, ◌≡◌, ◌≢◌, refl, ap, ◌∙◌, List, [], true, false, ◌||◌, some, arith,
  u64_mod, u32_mod, length, All, if◌then◌else◌,
}
use tcp_implementation.WrappingIntegers.{wrap, unwrap}
use tcp_implementation.WrappingIntegers.Unwrap.{unwrap-wrap}
use tcp_implementation.StreamReassembler.{StreamReassembler, datagram, push_substring}
use tcp_implementation.StreamReassembler.Excerpts.{Fits}
use tcp_implementation.StreamReassembler.Middle.{total}
use tcp_implementation.StreamReassembler.Assemble.{Good, window_end}
use tcp_implementation.StreamReassembler.Ends.{NotLonger, IsOrderly, push_substring-Good}
use tcp_implementation.StreamReassembler.Reached.{push_substring-Reaches, push_substring_ahead}
use tcp_implementation.TcpSegment.{TcpSegment}
use tcp_implementation.TcpReceiver.{
  TcpReceiver, ackno, window_size, stream_index, advance, segment_received,
}

-- `window_size` and the buffered bytes make up the capacity.
pub window_size-add-buffer_size :
    (r : TcpReceiver)
    → r.capacity < u64_mod
    → r.reassembler.output.buffer_size ≤ r.capacity
    → window_size r + r.reassembler.output.buffer_size ≡ r.capacity
unfolding window_size
window_size-add-buffer_size r h b = omega arith

-- How `segment_received` goes on at an absolute number near the acknowledged one.
received_near :
    (r : TcpReceiver) (seg : TcpSegment) (n : ℕ) (s : StreamReassembler)
    → r.first_segment ≡ false
    → r.isn.raw_value < u32_mod
    → 0 < n
    → n < 2 ^ 63
    → r.abs_seqno < 2 ^ 63
    → n < r.abs_seqno + 2 ^ 31
    → r.abs_seqno < n + 2 ^ 31
    → seg.header.seqno ≡ wrap n r.isn
    → push_substring r.reassembler seg.payload (n - 1) seg.header.fin ≡ some s
    → segment_received r seg ≡ some (advance seg n (record r { reassembler = s }))
unfolding segment_received stream_index
received_near r seg n s started isn_fits pos bound bound' up down e p = ground (arith, unwrapped, p)
  where
    unwrapped : unwrap seg.header.seqno r.isn r.abs_seqno ≡ n
    unwrapped = rw e (unwrap-wrap n r.abs_seqno r.isn isn_fits bound bound' up (omega arith))

-- The receiver has the front of the text, waits for more, and acknowledges what it has: the SYN
-- and the bytes written.
pub record IsSynced (text : List ℕ) (r : TcpReceiver) : Type 0 where
  pub good : Good text r.reassembler
  pub started : r.first_segment ≡ false
  pub isn_fits : r.isn.raw_value < u32_mod
  pub acked : r.abs_seqno ≡ r.reassembler.output.bytes_written + 1
  pub sized : r.reassembler.capacity ≡ r.reassembler.output.capacity
  pub short : r.reassembler.capacity + length text + 2 < 2 ^ 63

-- The absolute number that acknowledges all that was written, and the FIN if the stream ended.
abbrev pub next_wanted : TcpSegment → StreamReassembler → ℕ
next_wanted seg s =
    s.output.bytes_written + 1 + (if seg.header.fin || s.output.input_ended then 1 else 0)

advance_acked :
    (seg : TcpSegment) (r : TcpReceiver)
    → 0 < length seg.payload
    → r.reassembler.output.bytes_written + 2 < u64_mod
    → (advance seg r.abs_seqno r).abs_seqno ≡ next_wanted seg r.reassembler
unfolding advance
advance_acked seg r h b = ground arith

advance-reassembler :
    (seg : TcpSegment) (n : ℕ) (r : TcpReceiver)
    → ((advance seg n r).reassembler ≡ r.reassembler)
      × ((advance seg n r).first_segment ≡ r.first_segment)
      × ((advance seg n r).isn ≡ r.isn)
unfolding advance
advance-reassembler seg n r = ground arith

ackno-advance :
    (seg : TcpSegment) (r : TcpReceiver)
    → r.first_segment ≡ false
    → 0 < length seg.payload
    → r.reassembler.output.bytes_written + 2 < u64_mod
    → ackno (advance seg r.abs_seqno r)
      ≡ some (wrap (next_wanted seg (advance seg r.abs_seqno r).reassembler) r.isn)
unfolding ackno
ackno-advance seg r e h b =
    ground (arith, advance_acked seg r h b, advance-reassembler seg r.abs_seqno r)

-- A segment with data that arrives in order, from the acknowledged byte on, is an excerpt of the text
-- that lies in the window, and no stored datagram is longer than it, or than one stored before, at the
-- same place: the receiver takes all its bytes into the front of the text, and then acknowledges
-- exactly what it has written, counting the SYN, and the FIN once it came or the stream ended. The
-- receiver is synchronized and holds excerpts of the text, and the numbers fit 63 bits.
pub segment_received_in_order :
    {text : List ℕ} (r : TcpReceiver) (seg : TcpSegment)
    → let dg = datagram seg.payload r.reassembler.output.bytes_written seg.header.fin in
      IsSynced text r
      → seg.header.seqno ≡ wrap r.abs_seqno r.isn
      → 0 < length seg.payload
      → Fits text (window_end r.reassembler) dg
      → total r.reassembler.storage + length text < u64_mod
      → All (NotLonger dg) r.reassembler.storage
      → IsOrderly r.reassembler.storage
      → (r' : TcpReceiver) × (segment_received r seg ≡ some r')
        × Good text r'.reassembler
        × (r.reassembler.output.bytes_written + length seg.payload
            ≤ r'.reassembler.output.bytes_written)
        × (ackno r' ≡ some (wrap (next_wanted seg r'.reassembler) r.isn))
segment_received_in_order {text} r seg y e h f t nl o =
    let (s, p, good, grown) =
      push_substring-Good text (omega (arith, y.short)) r.reassembler seg.payload
        r.reassembler.output.bytes_written seg.header.fin y.good f t nl o in
    let place : r.abs_seqno - 1 ≡ r.reassembler.output.bytes_written = omega (arith, y.acked) in
    let bound : r.abs_seqno < 2 ^ 63 =
      omega (arith, y.acked, y.short, y.good.carried.within_text) in
    let r' : TcpReceiver = record r { reassembler = s } in
    let reached =
      push_substring-Reaches text (omega (arith, y.short)) r.reassembler seg.payload
        r.reassembler.output.bytes_written seg.header.fin y.good y.sized (omega (arith, y.short))
        (omega arith) (omega arith) f t in
    let same = advance-reassembler seg r.abs_seqno r' in
    (
      advance seg r.abs_seqno r',
      received_near r seg r.abs_seqno s y.started y.isn_fits (omega (arith, y.acked)) bound bound
          (omega arith) (omega arith) e (rw place p),
      rw (same.0) good,
      rw (same.0) (rw p at reached),
      (ackno-advance seg r' y.started h (omega (arith, y.short, good.carried.within_text))),
    )

advance_elsewhere :
    (seg : TcpSegment) (n : ℕ) (r : TcpReceiver) → n ≢ r.abs_seqno → advance seg n r ≡ r
unfolding advance
advance_elsewhere seg n r h = ground arith

-- A segment that starts before the acknowledged byte, less than 2^31 back, and reaches past it, is an
-- excerpt of the text that lies in the window, and no stored datagram is longer than it, or than one
-- stored before, at the same place: the front of the text is written to its end or further, but the
-- acknowledgment number stays as it was. The receiver is synchronized and holds excerpts of the text,
-- and the numbers fit 63 bits.
pub segment_received_overlap :
    {text : List ℕ} (r : TcpReceiver) (seg : TcpSegment) (n : ℕ)
    → IsSynced text r
    → seg.header.seqno ≡ wrap n r.isn
    → 0 < n
    → n < r.abs_seqno
    → r.abs_seqno < n + 2 ^ 31
    → r.abs_seqno < n + length seg.payload
    → Fits text (window_end r.reassembler) (datagram seg.payload (n - 1) seg.header.fin)
    → total r.reassembler.storage + length text < u64_mod
    → All (NotLonger (datagram seg.payload (n - 1) seg.header.fin)) r.reassembler.storage
    → IsOrderly r.reassembler.storage
    → (r' : TcpReceiver) × (segment_received r seg ≡ some r')
      × Good text r'.reassembler
      × (n - 1 + length seg.payload ≤ r'.reassembler.output.bytes_written)
      × (r.reassembler.output.bytes_written < r'.reassembler.output.bytes_written)
      × (ackno r' ≡ ackno r)
segment_received_overlap {text} r seg n y e pos lo near hi f t nl o =
    let (s, p, good, grown) =
      push_substring-Good text (omega (arith, y.short)) r.reassembler seg.payload (n - 1)
        seg.header.fin y.good f t nl o in
    let reached =
      push_substring-Reaches text (omega (arith, y.short)) r.reassembler seg.payload (n - 1)
        seg.header.fin y.good y.sized (omega (arith, y.short)) (omega (arith, y.acked))
        (omega (arith, y.acked)) f t in
    let bound : r.abs_seqno < 2 ^ 63 =
      omega (arith, y.acked, y.short, y.good.carried.within_text) in
    let reached' : n - 1 + length seg.payload ≤ s.output.bytes_written = rw p at reached in
    (
      record r { reassembler = s },
      received_near r seg n s y.started y.isn_fits pos (omega arith) bound (omega arith) near e p
          ∙ ap some (advance_elsewhere seg n (record r { reassembler = s }) (λ q. omega arith)),
      good,
      reached',
      omega (arith, y.acked),
      unfold ackno in refl,
    )

advance_after_end :
    (seg : TcpSegment) (r : TcpReceiver)
    → seg.payload ≡ []
    → 0 < r.abs_seqno
    → r.abs_seqno + 1 < u64_mod
    → r.reassembler.output.input_ended ≡ true
    → advance seg r.abs_seqno r ≡ record r { abs_seqno = r.abs_seqno + 1 }
unfolding advance
advance_after_end seg r bare pos bound ended = ground arith

-- Once the stream has ended and nothing is stored, with the acknowledged number past the end of the
-- bytes: a segment without data at that number, such as a bare acknowledgment, moves the
-- acknowledgment number on by one. The number is below 2^63.
pub segment_received_after_end :
    (r : TcpReceiver) (seg : TcpSegment)
    → r.first_segment ≡ false
    → r.isn.raw_value < u32_mod
    → r.abs_seqno + 1 < 2 ^ 63
    → r.reassembler.output.input_ended ≡ true
    → r.reassembler.next_assembling_index + 1 < r.abs_seqno
    → r.reassembler.storage ≡ []
    → seg.payload ≡ []
    → seg.header.seqno ≡ wrap r.abs_seqno r.isn
    → (r' : TcpReceiver) × (segment_received r seg ≡ some r')
      × (ackno r ≡ some (wrap r.abs_seqno r.isn))
      × (ackno r' ≡ some (wrap (r.abs_seqno + 1) r.isn))
unfolding ackno
segment_received_after_end r seg started isn_fits bound ended past none_stored bare e =
    let (s, p, same) =
      push_substring_ahead r.reassembler seg.payload (r.abs_seqno - 1) seg.header.fin none_stored
        (omega arith) in
    (
      record r { reassembler = s; abs_seqno = r.abs_seqno + 1 },
      received_near r seg r.abs_seqno s started isn_fits (omega arith) (omega arith) (omega arith)
            (omega arith) (omega arith) e p
          ∙ ap some (
              advance_after_end seg (record r { reassembler = s }) bare (omega arith) (omega arith)
                (rw same ended)),
      rw started,
      rw started,
    )
