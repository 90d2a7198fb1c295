-- ===== src/StreamReassembler/Calls.antt =====
-- What a call of push_substring keeps, on excerpts of one text that respect the window.
use tcp_implementation.Base.{
  ℕ, ◌+◌, ◌≤◌, ◌<◌, ◌≡◌, refl, sym, ap, ◌∙◌, List, [], ◌∷◌, Bool, true, false, ◌&&◌, not, Option,
  none, some, arith, u64_mod, length, leb, ◌==◌, Bool-cases, inl, inr,
}
use mathlib.Core.Option
use tcp_implementation.StreamReassembler.{
  Datagram, StreamReassembler, Arrival, ignored, missing, assembled, arrive, close, pop_front,
  resume, push_on, as_pushed,
}
use tcp_implementation.StreamReassembler.Excerpts.{Fits}
use tcp_implementation.StreamReassembler.Middle.{
  total, Keeps, WhenDone, missing_middle_handler-Keeps,
}
use tcp_implementation.StreamReassembler.Assemble.{
  Good, window_end, Assembled, ArrivesWell, arrive-Well,
}

module _ (text : List ℕ) (hl : length text < u64_mod) where
  -- What a call keeps: a good state, the reader's place and the capacity; it only adds bytes.
  pub record PushKeeps (r r' : StreamReassembler) : Type 0 where
    pub good : Good text r'
    pub same_read : r'.output.bytes_read ≡ r.output.bytes_read
    pub same_capacity : r'.output.capacity ≡ r.output.capacity
    pub grown : r.output.bytes_written ≤ r'.output.bytes_written

  -- The call that ends the text may end the output once its bytes are written.
  close-PushKeeps :
      {r r' : StreamReassembler} {limit : ℕ} (dg : Datagram) (exceeded : Bool)
      → Fits text limit dg
      → dg.index + dg.size ≤ r'.output.bytes_written
      → PushKeeps r r'
      → PushKeeps r (close dg exceeded r')
  unfolding close
  close-PushKeeps {r} {r'} dg exceeded f h k = elim (Bool-cases (dg.eof && not exceeded)) [
    | inl e ↦ rw e (record {
      good = record {
        carried = ground (arith, k.good.carried);
        aligned = k.good.aligned;
        fits = k.good.fits;
        counted = k.good.counted;
        ended = λ _. whole e;
      };
      same_read = k.same_read;
      same_capacity = k.same_capacity;
      grown = k.grown;
    })
    | inr e ↦ rw e k
  ]
    where
      whole : (dg.eof && not exceeded) ≡ true → r'.output.bytes_written ≡ length text
      whole e =
          let last : dg.eof ≡ true = ground arith in
          omega (arith, f.last last, k.good.carried.within_text)

  kept-PushKeeps :
      {r r' : StreamReassembler} → Good text r → Keeps text (window_end r) hl r r' → PushKeeps r r'
  kept-PushKeeps {r} {r'} g k = record {
    good = record {
      carried = rw k.same_output g.carried;
      aligned = rw (k.same_output, k.same_next) g.aligned;
      fits = rw k.same_output k.fits;
      counted = k.counted;
      ended = rw k.same_output g.ended;
    };
    same_read = ap (λ b. b.bytes_read) k.same_output;
    same_capacity = ap (λ b. b.capacity) k.same_output;
    grown = rw k.same_output (omega arith);
  }

  pub same-PushKeeps : {r : StreamReassembler} → Good text r → PushKeeps r r
  same-PushKeeps g = record {
    good = g;
    same_read = refl;
    same_capacity = refl;
    grown = omega arith;
  }

  handled-PushKeeps :
      {r : StreamReassembler} (o : Option StreamReassembler)
      → Good text r
      → WhenDone (Keeps text (window_end r) hl r) o
      → WhenDone (PushKeeps r) o
  handled-PushKeeps none g k = tt
  handled-PushKeeps (some r') g k = kept-PushKeeps g k

  pub Assembled-PushKeeps :
      {r r' : StreamReassembler} {dg : Datagram}
      → Good text r
      → Assembled text hl r dg r'
      → PushKeeps r r'
  Assembled-PushKeeps {r} {r'} g a = record {
    good = record {
      carried = a.carried;
      aligned = a.aligned;
      fits = rw (a.same_storage, a.same_read, a.same_capacity) g.fits;
      counted = rw (a.same_storage, a.same_count) g.counted;
      ended = λ e. omega (arith, g.ended (sym a.same_ended ∙ e), a.grown, a.carried.within_text);
    };
    same_read = a.same_read;
    same_capacity = a.same_capacity;
    grown = a.grown;
  }

  pub pop_front-Good :
      {r' : StreamReassembler} (front : Datagram) (rest : List Datagram)
      → r'.storage ≡ front ∷ rest
      → total r'.storage < u64_mod
      → Good text r'
      → Good text (pop_front rest front r')
  unfolding pop_front
  pop_front-Good {r'} front rest e h g = record {
    carried = g.carried;
    aligned = g.aligned;
    fits = (rw e at g.fits).1;
    counted = omega (arith, g.counted, ap total e);
    ended = g.ended;
  }

  as_pushed-Fits : {limit : ℕ} {d : Datagram} → Fits text limit d → Fits text limit (as_pushed d)
  as_pushed-Fits f = record {
    sized = refl;
    excerpt = f.excerpt;
    below = omega (arith, f.sized, f.below);
    last = λ e. omega (arith, f.sized, f.last e);
  }

  closed-PushKeeps :
      {r r' : StreamReassembler} {limit : ℕ} (dg : Datagram) (exceeded : Bool)
      (o : Option StreamReassembler)
      → Fits text limit dg
      → dg.index + dg.size ≤ r'.output.bytes_written
      → PushKeeps r r'
      → WhenDone (PushKeeps r') o
      → WhenDone (PushKeeps r) (Option.map (close dg exceeded) o)
  closed-PushKeeps dg exceeded none f h k i = tt
  closed-PushKeeps dg exceeded (some r'') f h k i =
      close-PushKeeps dg exceeded f (omega (arith, i.grown)) (record {
        good = i.good;
        same_read = i.same_read ∙ k.same_read;
        same_capacity = i.same_capacity ∙ k.same_capacity;
        grown = omega (arith, i.grown, k.grown);
      })

  -- The inner call, on the state that `arrive` left.
  resume-PushKeeps :
      (r : StreamReassembler) (dg : Datagram) (stored : Bool)
      (inner : StreamReassembler → Option StreamReassembler) (a : Arrival)
      → total r.storage + length text < u64_mod
      → Good text r
      → Fits text (window_end r) dg
      → ArrivesWell text hl r dg a
      → ((r' : StreamReassembler) → Assembled text hl r dg r' → WhenDone (PushKeeps r') (inner r'))
      → WhenDone (PushKeeps r) (resume r dg stored inner a)
  unfolding resume
  resume-PushKeeps r dg stored inner ignored h g f w ih = same-PushKeeps g
  resume-PushKeeps r dg stored inner missing h g f w ih =
      handled-PushKeeps _ g
        (missing_middle_handler-Keeps text (window_end r) hl r dg g.fits f g.counted h)
  resume-PushKeeps r dg stored inner (assembled r' exceeded) h g f w ih =
      elim (Bool-cases (
        leb r'.smallest_temporty_index r'.next_assembling_index
        && (not (length dg.bytes == 0) && stored))) [
          | inl e ↦ rw e (
              closed-PushKeeps dg exceeded (inner r') f w.0.reached (Assembled-PushKeeps g w.0)
                (ih r' w.0))
          | inr e ↦ rw e (close-PushKeeps dg exceeded f w.0.reached (Assembled-PushKeeps g w.0))
        ]

  pop_front-PushKeeps :
      (r' : StreamReassembler) (front : Datagram) (rest : List Datagram)
      (o : Option StreamReassembler)
      → WhenDone (PushKeeps (pop_front rest front r')) o
      → WhenDone (PushKeeps r') o
  unfolding pop_front
  pop_front-PushKeeps r' front rest none k = tt
  pop_front-PushKeeps r' front rest (some r'') k = record {
    good = k.good;
    same_read = k.same_read;
    same_capacity = k.same_capacity;
    grown = k.grown;
  }

  pub front-Fits :
      {r r' : StreamReassembler} {dg : Datagram} (front : Datagram) (rest : List Datagram)
      → Good text r
      → Assembled text hl r dg r'
      → r.storage ≡ front ∷ rest
      → Fits text (window_end (pop_front rest front r')) (as_pushed front)
  unfolding pop_front
  front-Fits front rest g a e =
      rw (a.same_read, a.same_capacity) (as_pushed-Fits (rw e at g.fits).0)

  -- The inner call, on the front of the storage, keeps what the outer one is to keep.
  inner-PushKeeps_of :
      (r r' : StreamReassembler) (dg front : Datagram) (rest : List Datagram)
      → r.storage ≡ front ∷ rest
      → total (front ∷ rest) + length text < u64_mod
      → Good text r
      → Assembled text hl r dg r'
      → (Good text (pop_front rest front r')
          → Fits text (window_end (pop_front rest front r')) (as_pushed front)
          → WhenDone
              (PushKeeps (pop_front rest front r'))
              (push_on rest (pop_front rest front r') (as_pushed front)))
      → WhenDone (PushKeeps r') (push_on rest (pop_front rest front r') (as_pushed front))
  inner-PushKeeps_of r r' dg front rest e h g a ih =
      pop_front-PushKeeps r' front rest (push_on rest (pop_front rest front r') (as_pushed front)) (
        ih
          (pop_front-Good front rest (a.same_storage ∙ e)
            (omega (arith, ap total (a.same_storage ∙ e))) (Assembled-PushKeeps g a).good)
          (front-Fits front rest g a e))

  -- By recursion on the storage, as the code recurs.
  pub push_on-PushKeeps :
      (storage : List Datagram) (r : StreamReassembler) (dg : Datagram)
      → r.storage ≡ storage
      → total storage + length text < u64_mod
      → Good text r
      → Fits text (window_end r) dg
      → WhenDone (PushKeeps r) (push_on storage r dg)
  unfolding push_on
  push_on-PushKeeps [] r dg e h g f =
      resume-PushKeeps r dg false some (arrive r dg) (rw e h) g f (arrive-Well text hl g f)
        (λ r' a. same-PushKeeps (Assembled-PushKeeps g a).good)
  push_on-PushKeeps (front ∷ rest) r dg e h g f =
      resume-PushKeeps r dg true _ (arrive r dg) (rw e h) g f (arrive-Well text hl g f) (λ r' a.
        inner-PushKeeps_of r r' dg front rest e h g a (
          push_on-PushKeeps rest (pop_front rest front r') (as_pushed front)
            (unfold pop_front in refl) (omega arith)))

  pub inner-PushKeeps :
      (r r' : StreamReassembler) (dg front : Datagram) (rest : List Datagram)
      → r.storage ≡ front ∷ rest
      → total (front ∷ rest) + length text < u64_mod
      → Good text r
      → Assembled text hl r dg r'
      → WhenDone (PushKeeps r') (push_on rest (pop_front rest front r') (as_pushed front))
  inner-PushKeeps r r' dg front rest e h g a = inner-PushKeeps_of r r' dg front rest e h g a (
      push_on-PushKeeps rest (pop_front rest front r') (as_pushed front) (unfold pop_front in refl)
        (omega arith))
