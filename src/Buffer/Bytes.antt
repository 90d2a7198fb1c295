-- ===== src/Buffer/Bytes.antt =====
-- The lists of buffers of buffer.cc as strings: what an operation does to the bytes.
use tcp_implementation.Base.{
  ℕ, zero, suc, ◌+◌, ◌-◌, ◌<◌, ◌≤◌, ◌≡◌, inl, inr, refl, sym, ap, ◌∙◌, false, List, [], ◌∷◌, ◌++◌,
  none, some, ltb, ◌==◌, length, drop, add64, arith, append-nil, append_assoc, length-append,
  length-drop, drop-append, drop-append_ge, drop-ge, drop-nil, drop-add, ge→ltb, lt→ltb, Bool-cases,
  All, ltb→lt,
}
use tcp_implementation.Buffer.{
  Buffer, str, buffer_size, buffer_remove_prefix, append, concatenate, concatenate_loop, size,
  size_loop, remove_prefix, views, views_remove_prefix,
}

-- The offset of a buffer lies within its string.
pub data IsBuffer : Buffer → Type 0 where
  nothing : (offset : ℕ) → IsBuffer (record { storage = none; starting_offset = offset })
  within :
      (s : List ℕ) (offset : ℕ)
      → offset ≤ length s
      → IsBuffer (record { storage = some s; starting_offset = offset })

-- `Buffer::remove_prefix` throws on more than there is; else it drops the bytes.
pub buffer_remove_prefix_throws :
    (b : Buffer) (n : ℕ) → length (str b) < n → buffer_remove_prefix b n ≡ none
unfolding buffer_remove_prefix
buffer_remove_prefix_throws b n h = rw (lt→ltb (length (str b)) n h) refl

pub buffer_remove_prefix_lem :
    (b : Buffer) (n : ℕ)
    → IsBuffer b
    → n ≤ length (str b)
    → (b' : Buffer) × (buffer_remove_prefix b n ≡ some b') × IsBuffer b' × (str b' ≡ drop n (str b))
unfolding buffer_remove_prefix str
buffer_remove_prefix_lem _ n (nothing offset) h = (
  record { storage = none; starting_offset = offset + n },
  ground arith,
  nothing (offset + n),
  ground (arith, drop-nil {A = ℕ} n),
)
buffer_remove_prefix_lem _ n (within s offset fits) h =
    let l = length-drop offset s in
    elim (Bool-cases ((offset + n) == length s)) [
      | inl whole ↦ (
        record { storage = none; starting_offset = offset + n },
        rw (ge→ltb (length (drop offset s)) n h) (rw whole refl),
        nothing (offset + n),
        sym (drop-ge n (drop offset s) (ground (arith, whole, l))),
      )
      | inr some_left ↦ (
        record { storage = some s; starting_offset = offset + n },
        rw (ge→ltb (length (drop offset s)) n h) (rw some_left refl),
        within s (offset + n) (omega (arith, l, h)),
        sym (drop-add offset n (offset + n) s refl),
      )
    ]

-- The bytes of a list of buffers.
abbrev pub bytes : List Buffer → List ℕ
bytes [] = []
bytes (b ∷ rest) = str b ++ bytes rest

concatenate_loop_lem :
    (bufs : List Buffer) (ret : List ℕ) → concatenate_loop bufs ret ≡ ret ++ bytes bufs
unfolding concatenate_loop
concatenate_loop_lem [] ret = sym (append-nil ret)
concatenate_loop_lem (b ∷ rest) ret =
    concatenate_loop_lem rest (ret ++ str b) ∙ append_assoc ret (str b) (bytes rest)

pub concatenate_lem : (bufs : List Buffer) → concatenate bufs ≡ bytes bufs
unfolding concatenate
concatenate_lem bufs = concatenate_loop_lem bufs []

bytes-++ : (xs ys : List Buffer) → bytes (xs ++ ys) ≡ bytes xs ++ bytes ys
bytes-++ [] ys = refl
bytes-++ (b ∷ rest) ys =
    ap (λ t. str b ++ t) (bytes-++ rest ys) ∙ sym (append_assoc (str b) (bytes rest) (bytes ys))

append_lem : (xs ys : List Buffer) → append xs ys ≡ xs ++ ys
append_lem xs [] = sym (append-nil xs)
append_lem xs (b ∷ rest) = append_lem (xs ++ b ∷ []) rest ∙ append_assoc xs (b ∷ []) rest

-- `append` puts the bytes of the one list behind those of the other.
pub concatenate-append :
    (xs ys : List Buffer) → concatenate (append xs ys) ≡ concatenate xs ++ concatenate ys
concatenate-append xs ys = rw (concatenate_lem (append xs ys)) (
    rw (concatenate_lem xs)
      (rw (concatenate_lem ys) (ap bytes (append_lem xs ys) ∙ bytes-++ xs ys)))

size_loop_lem :
    (bufs : List Buffer) (ret : ℕ)
    → ret + length (bytes bufs) < 18446744073709551616
    → size_loop bufs ret ≡ ret + length (bytes bufs)
unfolding size_loop
size_loop_lem [] ret h = omega arith
size_loop_lem (b ∷ rest) ret h =
    let l = length-append (str b) (bytes rest) in
    let e : add64 ret (buffer_size b) ≡ ret + length (str b) = omega arith in
    rw e (size_loop_lem rest (ret + length (str b)) (omega arith) ∙ omega arith)

-- `size` is the number of bytes that `concatenate` gives, while that fits `size_t`.
pub size-concatenate :
    (bufs : List Buffer)
    → length (concatenate bufs) < 18446744073709551616
    → size bufs ≡ length (concatenate bufs)
unfolding size
size-concatenate bufs h =
    let e = concatenate_lem bufs in
    let l = ap length e in rw e (size_loop_lem bufs 0 (omega arith) ∙ omega arith)

-- `BufferList::remove_prefix` throws on more bytes than there are.
pub remove_prefix_throws :
    (bufs : List Buffer) (n : ℕ) → length (bytes bufs) < n → remove_prefix bufs n ≡ none
unfolding remove_prefix
remove_prefix_throws [] n h = ground arith
remove_prefix_throws (b ∷ rest) n h =
    let l = length-append (str b) (bytes rest) in
    let below = remove_prefix_throws rest (n - buffer_size b) (omega arith) in ground (arith, below)

suc_nonzero : (n : ℕ) → (suc n == 0) ≡ false
suc_nonzero n = ground arith

-- What `remove_prefix` leaves of a list of buffers.
abbrev Leaves : List Buffer → ℕ → List Buffer → Type 0
Leaves bufs n bufs' =
    (remove_prefix bufs n ≡ some bufs')
    × All IsBuffer bufs'
    × (bytes bufs' ≡ drop n (bytes bufs))
    × (views_remove_prefix (views bufs) n ≡ some (views bufs'))

remove_prefix_front :
    (b : Buffer) (rest : List Buffer) (n : ℕ)
    → IsBuffer b
    → All IsBuffer rest
    → 0 < n
    → n < length (str b)
    → (bufs' : List Buffer) × Leaves (b ∷ rest) n bufs'
unfolding remove_prefix views_remove_prefix
remove_prefix_front b rest n v vs some_left fits =
    let r = buffer_remove_prefix_lem b n v (omega arith) in
    let zero_no : (n == 0) ≡ false = ground arith in
    let less = lt→ltb n (length (str b)) fits in
    (
      r.0 ∷ rest,
      (
        rw zero_no (rw less (rw r.1 refl)),
        (r.2, vs),
        ap (λ t. t ++ bytes rest) r.3 ∙ sym (drop-append n (str b) (bytes rest) (omega arith)),
        rw zero_no (rw less (rw r.3 refl)),
      ),
    )

-- `remove_prefix` on at most the bytes that there are drops them: the buffers stay well formed, and the
-- views of a `BufferViewList` go the same way.
pub remove_prefix_drops :
    (bufs : List Buffer) (n : ℕ)
    → All IsBuffer bufs
    → n ≤ length (bytes bufs)
    → (bufs' : List Buffer) × (remove_prefix bufs n ≡ some bufs')
      × All IsBuffer bufs'
      × (bytes bufs' ≡ drop n (bytes bufs))
      × (views_remove_prefix (views bufs) n ≡ some (views bufs'))
unfolding remove_prefix views_remove_prefix
remove_prefix_drops [] zero v h = ([], refl, tt, refl, refl)
remove_prefix_drops (b ∷ rest) zero v h = (b ∷ rest, refl, v, refl, refl)
remove_prefix_drops [] (suc n) v h = absurd (omega arith)
remove_prefix_drops (b ∷ rest) (suc n) v h = elim (Bool-cases (ltb (suc n) (length (str b)))) [
  | inl less ↦
      let f =
        remove_prefix_front b rest (suc n) v.0 v.1 (omega arith)
          (ltb→lt (suc n) (length (str b)) less) in
      (f.0, f.1.0, f.1.1, f.1.2, f.1.3)
  | inr all ↦
      let l = length-append (str b) (bytes rest) in
      let below = remove_prefix_drops rest (suc n - length (str b)) v.1 (ground (arith, all, l)) in
      (
        below.0,
        rw all (rw (suc_nonzero n) below.1),
        below.2,
        below.3 ∙ sym (drop-append_ge (suc n) (str b) (bytes rest) (ground (arith, all))),
        rw all (rw (suc_nonzero n) below.4),
      )
]
