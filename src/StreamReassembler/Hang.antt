-- ===== src/StreamReassembler/Hang.antt =====
-- When the loop of `missing_middle_handler` ends, and when it does not.
use tcp_implementation.Base.{
  ℕ, zero, suc, ◌+◌, ◌<◌, ◌≡◌, ◌≢◌, refl, ap, ◌∙◌, List, [], ◌∷◌, ◌++◌, Bool, Option, none, some,
  arith, u64_mod, length, length-append, sub64,
}
use tcp_implementation.ByteStream.{remaining_capacity}
use tcp_implementation.StreamReassembler.{
  Datagram, StreamReassembler, Verdict, duplicate, break_off, absorb, again, pass, Scan, returns,
  stops, restarts, absorbs, Loop, inspect, scan, middle_loop, missing_middle_handler, missing,
  arrive, resume, push_on, push_substring, datagram, indicator,
}

-- What a scan absorbs leaves one entry less.
abbrev Shorter : ℕ → Scan → Type 0
Shorter n returns = Unit {0}
Shorter n stops = Unit {0}
Shorter n restarts = Unit {0}
Shorter n (absorbs dg k storage) = suc (length storage) ≡ n

scan-Shorter :
    (seen rest : List Datagram) (dg : Datagram)
    → Shorter (length seen + length rest) (scan seen rest dg)
unfolding scan
scan-Shorter seen [] dg = tt
scan-Shorter seen (ptr ∷ rest) dg = go (inspect dg ptr) (scan-Shorter (seen ++ ptr ∷ []) rest dg)
  where
    go :
        (v : Verdict)
        → Shorter (length (seen ++ ptr ∷ []) + length rest) (scan (seen ++ ptr ∷ []) rest dg)
        → Shorter (length seen + length (ptr ∷ rest)) (elim v [
          | duplicate ↦ returns
          | break_off ↦ stops
          | absorb dg' n ↦ absorbs dg' n (seen ++ rest)
          | again ↦ restarts
          | pass ↦ scan (seen ++ ptr ∷ []) rest dg
        ])
    go duplicate ih = tt
    go break_off ih = tt
    go (absorb dg' n) ih = omega (arith, length-append seen rest)
    go again ih = tt
    go pass ih =
        let e : length (seen ++ ptr ∷ []) + length rest ≡ length seen + length (ptr ∷ rest) =
          omega (arith, length-append seen (ptr ∷ [])) in
        rw e at ih

scan-Shorter_all :
    (storage : List Datagram) (dg : Datagram) → Shorter (length storage) (scan [] storage dg)
scan-Shorter_all storage dg =
    let e : length {A = Datagram} [] + length storage ≡ length storage = omega arith in
    rw e at (scan-Shorter [] storage dg)

-- A scan that changes nothing is made for ever.
middle_loop-restarts :
    (fuel : ℕ) (dg : Datagram) (u : ℕ) (storage : List Datagram)
    → scan [] storage dg ≡ restarts
    → middle_loop fuel dg u storage ≡ none
unfolding middle_loop
middle_loop-restarts zero dg u storage e = refl
middle_loop-restarts (suc fuel) dg u storage e =
    rw (e, middle_loop) (middle_loop-restarts fuel dg u storage e)

-- One scan for each stored datagram and one more are enough: a loop that has not ended by then
-- does not end for any fuel.
pub middle_loop_fuel :
    (n fuel : ℕ) (dg : Datagram) (u : ℕ) (storage : List Datagram)
    → length storage < n
    → middle_loop n dg u storage ≡ none
    → middle_loop fuel dg u storage ≡ none
unfolding middle_loop
middle_loop_fuel n zero dg u storage h e = refl
middle_loop_fuel zero (suc fuel) dg u storage h e = absurd (omega arith)
middle_loop_fuel (suc n) (suc fuel) dg u storage h e =
    go (λ d k st. middle_loop_fuel n fuel d k st) (scan [] storage dg) refl
      (scan-Shorter_all storage dg) e
  where
    step : ℕ → Scan → Option Loop
    step f v = elim v [
      | returns ↦ some (u, storage, none)
      | stops ↦ some (u, storage, some dg)
      | restarts ↦ middle_loop f dg u storage
      | absorbs dg' k storage' ↦ middle_loop f dg' (sub64 u k) storage'
    ]

    go :
        ((d : Datagram) (k : ℕ) (st : List Datagram)
          → length st < n
          → middle_loop n d k st ≡ none
          → middle_loop fuel d k st ≡ none)
        → (v : Scan) → scan [] storage dg ≡ v
        → Shorter (length storage) v
        → step n v ≡ none
        → step fuel v ≡ none
    go ih returns q s i = cc
    go ih stops q s i = cc
    go ih restarts q s i = middle_loop-restarts fuel dg u storage q
    go ih (absorbs dg' k storage') q s i = ih dg' (sub64 u k) storage' (omega arith) i

-- A stored datagram at the place of a shorter new one: the branch that changes nothing.
inspect_longer :
    (dg ptr : Datagram)
    → ptr.index ≡ dg.index
    → dg.size < ptr.size
    → dg.index + ptr.size < u64_mod
    → inspect dg ptr ≡ again
unfolding inspect
inspect_longer dg ptr e h l = ground arith

arrive-missing :
    (r : StreamReassembler) (dg : Datagram)
    → remaining_capacity r.output ≢ 0
    → dg.index < indicator r
    → r.next_assembling_index < dg.index
    → arrive r dg ≡ missing
unfolding arrive
arrive-missing r dg room ahead late = ground arith

push_on-missing :
    (storage : List Datagram) (r : StreamReassembler) (dg : Datagram)
    → arrive r dg ≡ missing
    → push_on storage r dg ≡ missing_middle_handler r dg
unfolding push_on resume
push_on-missing [] r dg e = rw (e, resume)
push_on-missing (front ∷ rest) r dg e = rw (e, resume)

scan_longer :
    (dg ptr : Datagram) (rest : List Datagram)
    → inspect dg ptr ≡ again
    → scan [] (ptr ∷ rest) dg ≡ restarts
unfolding scan
scan_longer dg ptr rest e = rw (e, scan)

missing_middle_handler-restarts :
    (r : StreamReassembler) (dg : Datagram)
    → scan [] r.storage dg ≡ restarts
    → missing_middle_handler r dg ≡ none
unfolding missing_middle_handler
missing_middle_handler-restarts r dg e =
    rw (middle_loop-restarts (length r.storage + 1) dg r.unassembled_bytes r.storage e)

-- A substring that arrives ahead of its turn, inside the window and with room in the output, and is
-- shorter than the one that heads the storage at the same place: the call does not return, since its
-- loop over the storage ends for no number of scans.
pub push_substring_hangs :
    (r : StreamReassembler) (bytes : List ℕ) (index : ℕ) (eof : Bool) (ptr : Datagram)
    (rest : List Datagram) (fuel : ℕ)
    → remaining_capacity r.output ≢ 0
    → index < indicator r
    → r.next_assembling_index < index
    → r.storage ≡ ptr ∷ rest
    → ptr.index ≡ index
    → length bytes < ptr.size
    → index + ptr.size < u64_mod
    → (push_substring r bytes index eof ≡ none)
      × (middle_loop fuel (datagram bytes index eof) r.unassembled_bytes r.storage ≡ none)
unfolding push_substring
push_substring_hangs r bytes index eof ptr rest fuel room ahead late e place shorter fit = (
  push_on-missing r.storage r dg (arrive-missing r dg room ahead late)
      ∙ missing_middle_handler-restarts r dg again_and_again,
  middle_loop-restarts fuel dg r.unassembled_bytes r.storage again_and_again,
)
  where
    dg : Datagram
    dg = datagram bytes index eof

    again_and_again : scan [] r.storage dg ≡ restarts
    again_and_again =
        ap (λ st. scan [] st dg) e
        ∙ scan_longer dg ptr rest (inspect_longer dg ptr place shorter fit)
