-- ===== src/StreamReassembler/Middle.antt =====
-- `missing_middle_handler`: what the loop does to excerpts of one text.
use tcp_implementation.Base.{
  ℕ, zero, suc, ◌+◌, ◌≤◌, ◌<◌, ◌≡◌, refl, List, [], ◌∷◌, ◌++◌, Option, none, some, arith, u64_mod,
  length, All, All-append, append_assoc, length-append, Bool-cases, inl, inr, ltb, sub64,
}
use mathlib.Core.Option
use tcp_implementation.StreamReassembler.{
  Datagram, StreamReassembler, Verdict, duplicate, break_off, absorb, again, pass, Scan, returns,
  stops, restarts, absorbs, Loop, inspect, scan, middle_loop, insert_sorted, sort, store,
  missing_middle_handler, overlap_merger,
}
use tcp_implementation.StreamReassembler.Excerpts.{Fits, overlap_merger-Fits, overlap_merger-merged}

-- A property of the state that a call leaves, if the call ends.
abbrev pub WhenDone : (StreamReassembler → Type 0) → Option StreamReassembler → Type 0
WhenDone P none = Unit {0}
WhenDone P (some r) = P r

-- Both bounds of a text are below 2^64.
module _ (text : List ℕ) (limit : ℕ) (hl : length text < u64_mod) where
  -- What is absorbed leaves a longer excerpt at the same place, and its size is taken off.
  abbrev pub Absorbs : Datagram → Datagram → Verdict → Type 0
  Absorbs dg ptr (absorb d n) =
      Fits text limit d × (n ≡ ptr.size) × (d.index ≡ dg.index) × (dg.size ≤ d.size)
  Absorbs dg ptr duplicate = Unit {0}
  Absorbs dg ptr break_off = Unit {0}
  Absorbs dg ptr again = Unit {0}
  Absorbs dg ptr pass = Unit {0}

  size-overlap_merger :
      {dg ptr : Datagram}
      → Fits text limit dg
      → Fits text limit ptr
      → ptr.index < dg.index + dg.size
      → dg.index + dg.size < ptr.index + ptr.size
      → (dg.size ≤ (overlap_merger dg ptr).size) × ((overlap_merger dg ptr).index ≡ dg.index)
  size-overlap_merger f g h i = rw (overlap_merger-merged hl f g h i) (omega arith, refl)

  inspect-Absorbs :
      {dg ptr : Datagram}
      → Fits text limit dg
      → Fits text limit ptr
      → Absorbs dg ptr (inspect dg ptr)
  unfolding inspect
  inspect-Absorbs {dg} {ptr} f g = ground (
    arith,
    f.excerpt.inside,
    g.excerpt.inside,
    f.sized,
    g.sized,
    overlap_merger-Fits {dg = dg} {ptr = ptr} hl f g,
    size-overlap_merger {dg = dg} {ptr = ptr} f g,
  )

-- The bytes that a storage holds, an entry's size at a time.
abbrev pub total : List Datagram → ℕ
total [] = 0
total (d ∷ ds) = d.size + total ds

total-append : (xs ys : List Datagram) → total (xs ++ ys) ≡ total xs + total ys
total-append [] ys = omega arith
total-append (x ∷ xs) ys = omega (arith, total-append xs ys)

total-insert_sorted :
    (d : Datagram) (ds : List Datagram) → total (insert_sorted d ds) ≡ d.size + total ds
unfolding insert_sorted
total-insert_sorted d [] = refl
total-insert_sorted d (x ∷ xs) = ground (arith, total-insert_sorted d xs)

total-sort : (ds : List Datagram) → total (sort ds) ≡ total ds
unfolding sort
total-sort [] = refl
total-sort (d ∷ ds) = omega (arith, total-insert_sorted d (sort ds), total-sort ds)

module _ {ℓ} (P : Datagram → Type ℓ) where
  All-insert_sorted :
      (d : Datagram) (ds : List Datagram) → P d → All P ds → All P (insert_sorted d ds)
  unfolding insert_sorted
  All-insert_sorted d [] h k = (h, k)
  All-insert_sorted d (x ∷ xs) h k = elim (Bool-cases (ltb x.index d.index)) [
    | inl e ↦ rw e (k.0, All-insert_sorted d xs h k.1)
    | inr e ↦ rw e (h, k)
  ]

  All-sort : (ds : List Datagram) → All P ds → All P (sort ds)
  unfolding sort
  All-sort [] h = h
  All-sort (d ∷ ds) h = All-insert_sorted d (sort ds) h.0 (All-sort ds h.1)

module _ (text : List ℕ) (limit : ℕ) (hl : length text < u64_mod) where
  -- A scan that absorbs an entry takes it out of the storage.
  abbrev pub ScanKeeps : List Datagram → Datagram → Scan → Type 0
  ScanKeeps storage dg (absorbs d n storage') =
      All (Fits text limit) storage'
      × Fits text limit d
      × (d.index ≡ dg.index)
      × (dg.size ≤ d.size)
      × (n + total storage' ≡ total storage)
      × (suc (length storage') ≡ length storage)
  ScanKeeps storage dg returns = Unit {0}
  ScanKeeps storage dg stops = Unit {0}
  ScanKeeps storage dg restarts = Unit {0}

  pub scan-Keeps :
      (seen rest : List Datagram) (dg : Datagram)
      → All (Fits text limit) seen
      → All (Fits text limit) rest
      → Fits text limit dg
      → ScanKeeps (seen ++ rest) dg (scan seen rest dg)
  unfolding scan
  scan-Keeps seen [] dg hs hr f = tt
  scan-Keeps seen (ptr ∷ rest) dg hs hr f =
      go (inspect dg ptr) (inspect-Absorbs text limit hl f hr.0) (
        scan-Keeps (seen ++ ptr ∷ []) rest dg
          (All-append (Fits text limit) seen (ptr ∷ []) hs (hr.0, tt)) hr.1 f)
    where
      go :
          (v : Verdict)
          → Absorbs text limit hl dg ptr v
          → ScanKeeps ((seen ++ ptr ∷ []) ++ rest) dg (scan (seen ++ ptr ∷ []) rest dg)
          → ScanKeeps (seen ++ ptr ∷ rest) dg (elim v [
            | duplicate ↦ returns
            | break_off ↦ stops
            | absorb dg' n ↦ absorbs dg' n (seen ++ rest)
            | again ↦ restarts
            | pass ↦ scan (seen ++ ptr ∷ []) rest dg
          ])
      go duplicate a ih = tt
      go break_off a ih = tt
      go (absorb dg' n) a ih = (
        All-append (Fits text limit) seen rest hs hr.1,
        a.0,
        a.2,
        a.3,
        omega (arith, a.1, total-append seen rest, total-append seen (ptr ∷ rest)),
        omega (arith, length-append seen rest, length-append seen (ptr ∷ rest)),
      )
      go again a ih = tt
      go pass a ih = rw (append_assoc seen (ptr ∷ []) rest) at ih

  abbrev OptFits : Option Datagram → Type 0
  OptFits none = Unit {0}
  OptFits (some d) = Fits text limit d

  -- What the loop leaves: excerpts, counted right, and no more than there were.
  abbrev LoopKeeps : ℕ → Option Loop → Type 0
  LoopKeeps before none = Unit {0}
  LoopKeeps before (some (unassembled, storage, dg)) =
      All (Fits text limit) storage
      × (unassembled ≡ total storage)
      × (total storage ≤ before)
      × OptFits dg

  middle_loop-Keeps :
      (fuel : ℕ) (dg : Datagram) (unassembled : ℕ) (storage : List Datagram) (before : ℕ)
      → All (Fits text limit) storage
      → Fits text limit dg
      → unassembled ≡ total storage
      → total storage ≤ before
      → before < u64_mod
      → LoopKeeps before (middle_loop fuel dg unassembled storage)
  unfolding middle_loop
  middle_loop-Keeps zero dg unassembled storage before hs f e h l = tt
  middle_loop-Keeps (suc fuel) dg unassembled storage before hs f e h l =
      go (λ d u st. middle_loop-Keeps fuel d u st before) (scan [] storage dg)
        (scan-Keeps [] storage dg tt hs f)
    where
      go :
          ((d : Datagram) (u : ℕ) (st : List Datagram)
            → All (Fits text limit) st
            → Fits text limit d
            → u ≡ total st
            → total st ≤ before
            → before < u64_mod
            → LoopKeeps before (middle_loop fuel d u st))
          → (v : Scan) → ScanKeeps storage dg v
          → LoopKeeps before (elim v [
            | returns ↦ some (unassembled, storage, none)
            | stops ↦ some (unassembled, storage, some dg)
            | restarts ↦ middle_loop fuel dg unassembled storage
            | absorbs dg' n storage' ↦ middle_loop fuel dg' (sub64 unassembled n) storage'
          ])
      go ih returns k = (hs, e, h, tt)
      go ih stops k = (hs, e, h, f)
      go ih restarts k = ih dg unassembled storage hs f e h l
      go ih (absorbs dg' n storage') k =
          ih dg' (sub64 unassembled n) storage' k.0 k.1 (omega (arith, k.4)) (omega (arith, k.4)) l

  -- What the handler leaves alone, and what it keeps.
  pub record Keeps (r r' : StreamReassembler) : Type 0 where
    pub same_output : r'.output ≡ r.output
    pub same_capacity : r'.capacity ≡ r.capacity
    pub same_next : r'.next_assembling_index ≡ r.next_assembling_index
    pub fits : All (Fits text limit) r'.storage
    pub counted : r'.unassembled_bytes ≡ total r'.storage

  store-Keeps :
      (r : StreamReassembler) (before : ℕ) (o : Option Loop)
      → before + length text < u64_mod
      → LoopKeeps before o
      → WhenDone (Keeps r) (Option.map (store r) o)
  unfolding store
  store-Keeps r before none h k = tt
  store-Keeps r before (some (u, st, none)) h k = record {
    same_output = refl;
    same_capacity = refl;
    same_next = refl;
    fits = k.0;
    counted = k.1;
  }
  store-Keeps r before (some (u, st, some dg)) h k = record {
    same_output = refl;
    same_capacity = refl;
    same_next = refl;
    fits = All-sort (Fits text limit) (dg ∷ st) (k.3, k.0);
    counted = omega (arith, total-sort (dg ∷ st), k.1, k.2, k.3.sized, k.3.excerpt.inside);
  }

  pub missing_middle_handler-Keeps :
      (r : StreamReassembler) (dg : Datagram)
      → All (Fits text limit) r.storage
      → Fits text limit dg
      → r.unassembled_bytes ≡ total r.storage
      → total r.storage + length text < u64_mod
      → WhenDone (Keeps r) (missing_middle_handler r dg)
  unfolding missing_middle_handler
  missing_middle_handler-Keeps r dg hs f e h = store-Keeps r (total r.storage) _ h (
      middle_loop-Keeps (length r.storage + 1) dg r.unassembled_bytes r.storage (total r.storage) hs
        f e (omega arith) (omega arith))
