-- ===== src/StreamReassembler/Reached.antt =====
-- A substring that is not ahead of its turn is assembled to its end.
use tcp_implementation.Base.{
  ℕ, ◌+◌, ◌≤◌, ◌<◌, ◌≡◌, ap, ◌∙◌, List, [], ◌∷◌, Bool, true, false, ◌&&◌, not, Option, none, some,
  arith, u64_mod, length, leb, All, refl, ◌==◌, Bool-cases, ◌⊎◌, inl, inr,
}
use mathlib.Core.Option
use tcp_implementation.ByteStream.{remaining_capacity}
use tcp_implementation.StreamReassembler.{
  Datagram, StreamReassembler, ignored, missing, assembled, arrive, close, resume, push_on,
  push_substring, datagram, indicator, front_index, append_next, overlap_handler,
  missing_middle_handler, middle_loop, scan, store,
}
use tcp_implementation.ByteStream.Inv.{remaining_capacity-add-buffer_size}
use tcp_implementation.StreamReassembler.Excerpts.{Fits}
use tcp_implementation.StreamReassembler.Middle.{total, WhenDone}
use tcp_implementation.StreamReassembler.Assemble.{Good, window_end, arrive-Well, Assembled}
use tcp_implementation.StreamReassembler.Calls.{
  PushKeeps, Assembled-PushKeeps, same-PushKeeps, inner-PushKeeps,
}

-- The bytes written reach the end of `dg`.
abbrev pub Reaches : Datagram → StreamReassembler → Type 0
Reaches dg r = dg.index + dg.size ≤ r.output.bytes_written

close-Reaches :
    (dg : Datagram) (b : Bool) (r : StreamReassembler) → Reaches dg r → Reaches dg (close dg b r)
unfolding close
close-Reaches dg b r h = elim (Bool-cases (dg.eof && not b)) [ inl e ↦ rw e h | inr e ↦ rw e h ]

module _ (text : List ℕ) (hl : length text < u64_mod) where
  closed-Reaches :
      (dg : Datagram) (b : Bool) (r' : StreamReassembler) (o : Option StreamReassembler)
      → Reaches dg r'
      → WhenDone (PushKeeps text hl r') o
      → WhenDone (Reaches dg) (Option.map (close dg b) o)
  closed-Reaches dg b r' none h k = tt
  closed-Reaches dg b r' (some r'') h k = close-Reaches dg b r'' (omega (arith, k.grown))

  resume-Reaches :
      (r : StreamReassembler) (dg : Datagram) (stored : Bool)
      (inner : StreamReassembler → Option StreamReassembler) (r' : StreamReassembler) (b : Bool)
      → Assembled text hl r dg r'
      → WhenDone (PushKeeps text hl r') (inner r')
      → WhenDone (Reaches dg) (resume r dg stored inner (assembled r' b))
  unfolding resume
  resume-Reaches r dg stored inner r' b a k =
      elim (Bool-cases (
        leb r'.smallest_temporty_index r'.next_assembling_index
        && (not (length dg.bytes == 0) && stored))) [
          | inl e ↦ rw e (closed-Reaches dg b r' (inner r') a.reached k)
          | inr e ↦ rw e (close-Reaches dg b r' a.reached)
        ]

  push_on-Reaches :
      (storage : List Datagram) (r r' : StreamReassembler) (dg : Datagram) (b : Bool)
      → r.storage ≡ storage
      → total storage + length text < u64_mod
      → Good text r
      → Fits text (window_end r) dg
      → arrive r dg ≡ assembled r' b
      → WhenDone (Reaches dg) (push_on storage r dg)
  unfolding push_on
  push_on-Reaches [] r r' dg b e h g f q =
      let a : Assembled text hl r dg r' = (rw q at (arrive-Well text hl g f)).0 in
      rw q (
        resume-Reaches r dg false some r' b a
          (same-PushKeeps text hl (Assembled-PushKeeps text hl g a).good))
  push_on-Reaches (front ∷ rest) r r' dg b e h g f q =
      let a : Assembled text hl r dg r' = (rw q at (arrive-Well text hl g f)).0 in
      rw q (resume-Reaches r dg true _ r' b a (inner-PushKeeps text hl r r' dg front rest e h g a))

  front_index-le :
      (limit : ℕ) (ds : List Datagram) → All (Fits text limit) ds → front_index ds ≤ length text
  front_index-le limit [] h = omega arith
  front_index-le limit (d ∷ ds) h = omega (arith, h.0.excerpt.inside)

  indicator-above :
      (r : StreamReassembler)
      → Good text r
      → 0 < r.capacity
      → r.capacity + length text < u64_mod
      → r.next_assembling_index < indicator r
  unfolding indicator
  indicator-above r g c h =
      ground
        (arith, front_index-le (window_end r) r.storage g.fits, g.aligned, g.carried.within_text)

  arrive_in_turn :
      (r : StreamReassembler) (dg : Datagram)
      → dg.index ≤ r.next_assembling_index
      → r.next_assembling_index < dg.index + length dg.bytes
      → dg.index + length dg.bytes < u64_mod
      → r.next_assembling_index < indicator r
      → 0 < remaining_capacity r.output
      → (a : StreamReassembler × Bool) × (arrive r dg ≡ assembled a.0 a.1)
  unfolding arrive
  arrive_in_turn r dg lo hi fit ahead room =
      elim (Bool-cases (dg.index == r.next_assembling_index)) [
        | inl e ↦ ((append_next r dg.bytes, false), ground arith)
        | inr e ↦ (overlap_handler r dg, ground arith)
      ]

  -- A substring with a byte that comes next, if there is room for one, is written to its end.
  pub push_substring-Reaches :
      (r : StreamReassembler) (bytes : List ℕ) (index : ℕ) (eof : Bool)
      → Good text r
      → r.capacity ≡ r.output.capacity
      → r.capacity + length text < u64_mod
      → index ≤ r.output.bytes_written
      → r.output.bytes_written < index + length bytes
      → Fits text (window_end r) (datagram bytes index eof)
      → total r.storage + length text < u64_mod
      → WhenDone (Reaches (datagram bytes index eof)) (push_substring r bytes index eof)
  unfolding push_substring
  push_substring-Reaches r bytes index eof g c h lo hi f t =
      push_on-Reaches r.storage r arrived.0.0 _ arrived.0.1 refl t g f arrived.1
    where
      room : 0 < remaining_capacity r.output
      room = omega (
        arith,
        remaining_capacity-add-buffer_size g.carried.valid,
        g.carried.valid.balance,
        f.below,
      )

      arrived :
          (a : StreamReassembler × Bool) × (arrive r (datagram bytes index eof) ≡ assembled a.0 a.1)
      arrived =
          arrive_in_turn r (datagram bytes index eof) (omega (arith, g.aligned))
            (omega (arith, g.aligned)) (omega (arith, f.excerpt.inside))
            (indicator-above r g
              (omega (arith, f.below, g.carried.valid.balance, g.carried.valid.within)) h)
            room

arrive_ahead :
    (r : StreamReassembler) (dg : Datagram)
    → r.next_assembling_index < dg.index
    → (arrive r dg ≡ ignored) ⊎ (arrive r dg ≡ missing)
unfolding arrive
arrive_ahead r dg h = ground arith

missing_middle_handler_empty :
    (r : StreamReassembler) (dg : Datagram)
    → r.storage ≡ []
    → missing_middle_handler r dg ≡ some (store r (r.unassembled_bytes, [], some dg))
unfolding missing_middle_handler middle_loop scan
missing_middle_handler_empty r dg e =
    ap (λ st. Option.map (store r) (middle_loop (length st + 1) dg r.unassembled_bytes st)) {y = []}
      e

-- A substring ahead of its turn leaves the output as it is, if nothing is stored.
pub push_substring_ahead :
    (r : StreamReassembler) (bytes : List ℕ) (index : ℕ) (eof : Bool)
    → r.storage ≡ []
    → r.next_assembling_index < index
    → (s : StreamReassembler) × (push_substring r bytes index eof ≡ some s) × (s.output ≡ r.output)
unfolding push_substring push_on resume store
push_substring_ahead r bytes index eof e late = elim (arrive_ahead r dg late) [
  | inl q ↦ (r, ap (λ st. push_on st r dg) e ∙ ap (resume r dg false some) q, refl)
  | inr q ↦ (
    store r (r.unassembled_bytes, [], some dg),
    ap (λ st. push_on st r dg) e
        ∙ ap (resume r dg false some) q
        ∙ missing_middle_handler_empty r dg e,
    refl,
  )
]
  where
    dg : Datagram
    dg = datagram bytes index eof
