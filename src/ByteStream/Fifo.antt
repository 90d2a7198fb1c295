-- ===== src/ByteStream/Fifo.antt =====
-- A stream that carries one fixed text: what is buffered lies in it between the two counters.
use tcp_implementation.Base.{
  ℕ, ◌+◌, ◌-◌, ◌≤◌, ◌<◌, ◌≡◌, refl, sym, ap, ap₂, ◌∙◌, List, ◌++◌, arith, min, u64_mod, length,
  take, drop, drop-add, drop-take, take-take, take-add, take-min,
}
use tcp_implementation.ByteStream.{ByteStream, write, read}
use tcp_implementation.ByteStream.Inv.{
  IsValid, accepted, write_lem, read_lem, write-IsValid, read-IsValid,
}

-- `xs` stands in `text` at place `i`.
pub record IsExcerpt (text : List ℕ) (i : ℕ) (xs : List ℕ) : Type 0 where
  pub inside : i + length xs ≤ length text
  pub agrees : xs ≡ take (length xs) (drop i text)

-- The bytes written so far are the front of `text`, and those still buffered are their end.
pub record Carries (text : List ℕ) (b : ByteStream) : Type 0 where
  pub valid : IsValid b
  pub within_text : b.bytes_written ≤ length text
  pub buffered : b.stream ≡ take b.buffer_size (drop b.bytes_read text)

-- Writing the excerpt that comes next keeps the stream a carrier of its text.
pub write-Carries :
    {text xs : List ℕ} {b : ByteStream}
    → length text < u64_mod
    → Carries text b
    → IsExcerpt text b.bytes_written xs
    → Carries text (write b xs).0
write-Carries {text} {xs} {b} hl c x = record {
  valid = write-IsValid xs c.valid (omega (arith, x.inside));
  within_text = rw (write_lem xs c.valid (omega (arith, x.inside))) (omega (arith, x.inside));
  buffered = rw (write_lem xs c.valid (omega (arith, x.inside))) longer;
}
  where
    k : ℕ
    k = accepted b xs

    taken : take k xs ≡ take k (drop b.bytes_written text)
    taken = ap (take k) x.agrees ∙ take-take k (length xs) (drop b.bytes_written text) (omega arith)

    longer : b.stream ++ take k xs ≡ take (b.buffer_size + k) (drop b.bytes_read text)
    longer =
        ap₂ ◌++◌ c.buffered (
          taken
          ∙ ap (take k)
              (sym (drop-add b.bytes_read b.buffer_size b.bytes_written text c.valid.balance)))
        ∙ sym (take-add b.buffer_size k (b.buffer_size + k) (drop b.bytes_read text) (omega arith))

-- `read` delivers the bytes of the text from the reader's place on, as many as are buffered and
-- asked for, and the stream goes on carrying the text.
pub read-Carries :
    {text : List ℕ} {b : ByteStream} (len : ℕ)
    → Carries text b
    → Carries text (read b len).0
      × ((read b len).1 ≡ take (min len b.buffer_size) (drop b.bytes_read text))
read-Carries {text} {b} len c = (
  record {
    valid = read-IsValid len c.valid;
    within_text = rw (read_lem len c.valid) c.within_text;
    buffered = rw (read_lem len c.valid) left;
  },
  rw (read_lem len c.valid) given,
)
  where
    m : ℕ
    m = min len b.buffer_size

    left : drop m b.stream ≡ take (b.buffer_size - m) (drop (b.bytes_read + m) text)
    left =
        ap (drop m) c.buffered
        ∙ drop-take m (b.buffer_size - m) b.buffer_size (drop b.bytes_read text) (omega arith)
        ∙ ap (take (b.buffer_size - m)) (drop-add b.bytes_read m (b.bytes_read + m) text refl)

    given : take len b.stream ≡ take m (drop b.bytes_read text)
    given =
        sym (take-min len b.stream)
        ∙ ap (λ t. take t b.stream) {y = m} (omega (arith, c.valid.counted))
        ∙ ap (take m) c.buffered
        ∙ take-take m b.buffer_size (drop b.bytes_read text) (omega arith)
