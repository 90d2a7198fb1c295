-- ===== src/StreamReassembler/Excerpts.antt =====
-- Excerpts of one text, and the merge of two that touch or overlap.
use tcp_implementation.Base.{
  ℕ, ◌+◌, ◌-◌, ◌≤◌, ◌<◌, ◌≡◌, refl, sym, ap, ap₂, ◌∙◌, List, ◌++◌, true, arith, u64_mod, length,
  take, drop, drop-add, drop-take, take-add, length-append, length-drop,
}
use tcp_implementation.ByteStream.Fifo.{IsExcerpt}
use tcp_implementation.StreamReassembler.{Datagram, overlap_merger}

module _ {text : List ℕ} where
  -- What is left of an excerpt without its first `k` bytes.
  pub IsExcerpt-drop :
      (i k : ℕ) (xs : List ℕ)
      → k ≤ length xs
      → IsExcerpt text i xs
      → IsExcerpt text (i + k) (drop k xs)
  IsExcerpt-drop i k xs h x = record {
    inside = omega (arith, x.inside, length-drop k xs);
    agrees =
        ap (drop k) x.agrees
        ∙ drop-take k (length (drop k xs)) (length xs) (drop i text)
            (omega (arith, length-drop k xs))
        ∙ ap (take (length (drop k xs))) (drop-add i k (i + k) text refl);
  }

  -- Two excerpts that follow one another are one.
  pub IsExcerpt-append :
      (i j : ℕ) (xs ys : List ℕ)
      → j ≡ i + length xs
      → IsExcerpt text i xs
      → IsExcerpt text j ys
      → IsExcerpt text i (xs ++ ys)
  IsExcerpt-append i j xs ys e x y = record {
    inside = omega (arith, x.inside, y.inside, length-append xs ys);
    agrees =
        ap₂ ◌++◌ x.agrees (y.agrees ∙ ap (take (length ys)) (sym (drop-add i (length xs) j text e)))
        ∙ sym (
            take-add (length xs) (length ys) (length (xs ++ ys)) (drop i text)
              (length-append xs ys));
  }

-- A datagram that is an excerpt of `text` below `limit`, and says so if it ends the text.
pub record Fits (text : List ℕ) (limit : ℕ) (d : Datagram) : Type 0 where
  pub sized : d.size ≡ length d.bytes
  pub excerpt : IsExcerpt text d.index d.bytes
  pub below : d.index + d.size ≤ limit
  pub last : d.eof ≡ true → d.index + d.size ≡ length text

-- `dg` with what lies in `ptr` from its place `k` on.
abbrev pub merged : Datagram → Datagram → ℕ → Datagram
merged dg ptr k = record dg {
  bytes = dg.bytes ++ drop k ptr.bytes;
  size = dg.size + (ptr.size - k);
}

module _ {text : List ℕ} {limit : ℕ} {dg ptr : Datagram} where
  -- Where the two touch or overlap and `ptr` reaches further, the merger takes what reaches
  -- further, unless they only touch.
  pub overlap_merger-merged :
      length text < u64_mod
      → Fits text limit dg
      → Fits text limit ptr
      → ptr.index < dg.index + dg.size
      → dg.index + dg.size < ptr.index + ptr.size
      → overlap_merger dg ptr ≡ merged dg ptr (dg.index + dg.size - ptr.index)
  unfolding overlap_merger
  overlap_merger-merged hl f g h i = ground (
    arith,
    f.excerpt.inside,
    g.excerpt.inside,
    f.sized,
    g.sized,
    length-drop (dg.index + dg.size - ptr.index) ptr.bytes,
  )

  -- Merging on the right yields an excerpt up to the end of the right one.
  pub overlap_merger-Fits :
      length text < u64_mod
      → Fits text limit dg
      → Fits text limit ptr
      → ptr.index < dg.index + dg.size
      → dg.index + dg.size < ptr.index + ptr.size
      → Fits text limit (overlap_merger dg ptr)
  overlap_merger-Fits hl f g h i = rw (overlap_merger-merged hl f g h i) (record {
    sized = omega (
      arith,
      f.sized,
      g.sized,
      length-append dg.bytes (drop k ptr.bytes),
      length-drop k ptr.bytes,
    );
    excerpt =
        IsExcerpt-append dg.index (ptr.index + k) dg.bytes (drop k ptr.bytes)
          (omega (arith, f.sized)) f.excerpt
          (IsExcerpt-drop ptr.index k ptr.bytes (omega (arith, g.sized)) g.excerpt);
    below = omega (arith, g.below);
    last = λ e. absurd (omega (arith, f.last e, g.sized, g.excerpt.inside));
  })
    where
      k : ℕ
      k = dg.index + dg.size - ptr.index
