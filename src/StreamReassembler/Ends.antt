-- ===== src/StreamReassembler/Ends.antt =====
-- `push_substring` ends on excerpts if no stored one is longer than another at its place.
use tcp_implementation.Base.{
  ℕ, zero, suc, ◌+◌, ◌≤◌, ◌<◌, ◌≡◌, ◌≢◌, refl, ap, ◌∙◌, List, [], ◌∷◌, ◌++◌, Bool, true, false,
  ◌&&◌, not, Option, none, some, arith, u64_mod, length, All, All-append, All-mono, leb, ◌==◌,
  Bool-cases, inl, inr, sub64,
}
use mathlib.Core.Option
use tcp_implementation.StreamReassembler.{
  Datagram, StreamReassembler, Verdict, duplicate, break_off, absorb, again, pass, Scan, returns,
  stops, restarts, absorbs, Loop, inspect, scan, middle_loop, store, missing_middle_handler,
  Arrival, ignored, missing, assembled, arrive, resume, pop_front, push_on, push_substring,
  as_pushed, datagram, close,
}
use tcp_implementation.StreamReassembler.Excerpts.{Fits}
use tcp_implementation.StreamReassembler.Middle.{total, ScanKeeps, scan-Keeps}
use tcp_implementation.StreamReassembler.Assemble.{
  Good, window_end, ArrivesWell, arrive-Well, Assembled,
}
use tcp_implementation.StreamReassembler.Calls.{
  PushKeeps, push_on-PushKeeps, Assembled-PushKeeps, pop_front-Good, front-Fits,
}

-- No datagram of a storage is longer than `dg` at its place.
abbrev pub NotLonger : Datagram → Datagram → Type 0
NotLonger dg ptr = ptr.index ≡ dg.index → ptr.size ≤ dg.size

-- Nor than another that stands before it.
abbrev pub IsOrderly : List Datagram → Type 0
IsOrderly [] = Unit {0}
IsOrderly (d ∷ ds) = All (NotLonger (as_pushed d)) ds × IsOrderly ds

abbrev Ends {ℓ} : {A : Type ℓ} → Option A → Type ℓ
Ends {A = A} o = (a : A) × (o ≡ some a)

inspect-ne-again : (dg ptr : Datagram) → NotLonger dg ptr → inspect dg ptr ≢ again
unfolding inspect
inspect-ne-again dg ptr h = ground arith

-- A scan over entries that are not longer never starts anew with nothing changed.
module _ {ℓ} (P : Datagram → Type ℓ) where
  abbrev Moves : Scan → Type ℓ
  Moves returns = Unit
  Moves stops = Unit
  Moves restarts = ¬ Unit {ℓ}
  Moves (absorbs dg n storage) = All P storage

  scan-Moves :
      (seen rest : List Datagram) (dg : Datagram)
      → All P seen
      → All P rest
      → All (NotLonger dg) rest
      → Moves (scan seen rest dg)
  unfolding scan
  scan-Moves seen [] dg hs hr nl = tt
  scan-Moves seen (ptr ∷ rest) dg hs hr nl =
      go (inspect dg ptr) refl (
        scan-Moves (seen ++ ptr ∷ []) rest dg (All-append P seen (ptr ∷ []) hs (hr.0, tt)) hr.1
          nl.1)
    where
      go :
          (v : Verdict)
          → inspect dg ptr ≡ v
          → Moves (scan (seen ++ ptr ∷ []) rest dg)
          → Moves (elim v [
            | duplicate ↦ returns
            | break_off ↦ stops
            | absorb dg' n ↦ absorbs dg' n (seen ++ rest)
            | again ↦ restarts
            | pass ↦ scan (seen ++ ptr ∷ []) rest dg
          ])
      go duplicate e ih = tt
      go break_off e ih = tt
      go (absorb dg' n) e ih = All-append P seen rest hs hr.1
      go again e ih = absurd (inspect-ne-again dg ptr nl.0 e)
      go pass e ih = ih

module _ (text : List ℕ) (hl : length text < u64_mod) where
  middle_loop-Ends :
      (limit n : ℕ) (dg : Datagram) (u : ℕ) (storage : List Datagram)
      → All (Fits text limit) storage
      → Fits text limit dg
      → All (NotLonger dg) storage
      → length storage < n
      → Ends (middle_loop n dg u storage)
  unfolding middle_loop
  middle_loop-Ends limit zero dg u storage hs f nl h = absurd (omega arith)
  middle_loop-Ends limit (suc n) dg u storage hs f nl h =
      go (λ d k st. middle_loop-Ends limit n d k st) (scan [] storage dg)
        (scan-Keeps text limit hl [] storage dg tt hs f)
        (scan-Moves (NotLonger dg) [] storage dg tt nl nl)
    where
      go :
          ((d : Datagram) (k : ℕ) (st : List Datagram)
            → All (Fits text limit) st
            → Fits text limit d
            → All (NotLonger d) st
            → length st < n
            → Ends (middle_loop n d k st))
          → (v : Scan) → ScanKeeps text limit hl storage dg v
          → Moves (NotLonger dg) v
          → Ends {A = Loop} (elim v [
            | returns ↦ some (u, storage, none)
            | stops ↦ some (u, storage, some dg)
            | restarts ↦ middle_loop n dg u storage
            | absorbs dg' k storage' ↦ middle_loop n dg' (sub64 u k) storage'
          ])
      go ih returns k m = (_, refl)
      go ih stops k m = (_, refl)
      go ih restarts k m = absurd (m tt)
      go ih (absorbs dg' c storage') k m =
          ih dg' (sub64 u c) storage' k.0 k.1
            (All-mono (NotLonger dg) (NotLonger dg') (λ p q e. omega (arith, q (e ∙ k.2), k.3))
              storage' m)
            (omega (arith, k.5))

  missing_middle_handler-Ends :
      (r : StreamReassembler) (limit : ℕ) (dg : Datagram)
      → All (Fits text limit) r.storage
      → Fits text limit dg
      → All (NotLonger dg) r.storage
      → Ends (missing_middle_handler r dg)
  unfolding missing_middle_handler
  missing_middle_handler-Ends r limit dg hs f nl =
      let (l, e) =
        middle_loop-Ends limit (length r.storage + 1) dg r.unassembled_bytes r.storage hs f nl
          (omega arith) in
      (store r l, ap (Option.map (store r)) e)

  resume-Ends :
      (r : StreamReassembler) (dg : Datagram) (stored : Bool)
      (inner : StreamReassembler → Option StreamReassembler) (a : Arrival)
      → Good text r
      → Fits text (window_end r) dg
      → All (NotLonger dg) r.storage
      → ArrivesWell text hl r dg a
      → ((r' : StreamReassembler) → Assembled text hl r dg r' → Ends (inner r'))
      → Ends (resume r dg stored inner a)
  unfolding resume
  resume-Ends r dg stored inner ignored g f nl w ih = (r, refl)
  resume-Ends r dg stored inner missing g f nl w ih =
      missing_middle_handler-Ends r (window_end r) dg g.fits f nl
  resume-Ends r dg stored inner (assembled r' exceeded) g f nl w ih =
      let (r'', e) = ih r' w.0 in
      elim (Bool-cases (
        leb r'.smallest_temporty_index r'.next_assembling_index
        && (not (length dg.bytes == 0) && stored))) [
          | inl b ↦ rw b (close dg exceeded r'', ap (Option.map (close dg exceeded)) e)
          | inr b ↦ rw b (close dg exceeded r', refl)
        ]

  push_on-Ends :
      (storage : List Datagram) (r : StreamReassembler) (dg : Datagram)
      → r.storage ≡ storage
      → total storage + length text < u64_mod
      → Good text r
      → Fits text (window_end r) dg
      → All (NotLonger dg) storage
      → IsOrderly storage
      → Ends (push_on storage r dg)
  unfolding push_on
  push_on-Ends [] r dg e h g f nl o =
      resume-Ends r dg false some (arrive r dg) g f (rw e nl) (arrive-Well text hl g f)
        (λ r' a. (r', refl))
  push_on-Ends (front ∷ rest) r dg e h g f nl o =
      resume-Ends r dg true _ (arrive r dg) g f (rw e nl) (arrive-Well text hl g f) (λ r' a.
        push_on-Ends rest (pop_front rest front r') (as_pushed front) (unfold pop_front in refl)
          (omega arith)
          (pop_front-Good text hl front rest (a.same_storage ∙ e)
            (omega (arith, ap total (a.same_storage ∙ e))) (Assembled-PushKeeps text hl g a).good)
          (front-Fits text hl front rest g a e) o.0 o.1)

  -- `push_substring` on an excerpt of the text that lies in the window ends, unless a stored
  -- datagram is longer than it, or than one stored before, at the same place. Then it keeps the
  -- reassembler good: what is written is still the front of the text, and the output is ended
  -- only when all of it is written. Nothing that was written is taken back.
  pub push_substring-Good :
      (r : StreamReassembler) (bytes : List ℕ) (index : ℕ) (eof : Bool)
      → Good text r
      → Fits text (window_end r) (datagram bytes index eof)
      → total r.storage + length text < u64_mod
      → All (NotLonger (datagram bytes index eof)) r.storage
      → IsOrderly r.storage
      → (r' : StreamReassembler) × (push_substring r bytes index eof ≡ some r')
        × Good text r'
        × (r.output.bytes_written ≤ r'.output.bytes_written)
  unfolding push_substring
  push_substring-Good r bytes index eof g f h nl o =
      let (r', e) = push_on-Ends r.storage r dg refl h g f nl o in
      let k : PushKeeps text hl r r' =
        rw e at (push_on-PushKeeps text hl r.storage r dg refl h g f) in
      (r', e, k.good, k.grown)
    where
      dg : Datagram
      dg = datagram bytes index eof
