-- ===== src/Checksum/Laws.antt =====
-- The Internet checksum of util.cc is the complement of a sum of 16-bit words modulo 65535.
use tcp_implementation.Base.{
  ℕ, zero, suc, ◌+◌, ◌*◌, ◌/◌, ◌%◌, ◌≤◌, ◌<◌, ◌≡◌, refl, ◌∙◌, List, [], ◌∷◌, ◌++◌, false, arith,
  u32_mod, length, All, add32,
}
use tcp_implementation.Checksum.{InternetChecksum, checksum, add_byte, add, fold_loop, value}

abbrev pub IsByte : ℕ → Type 0
IsByte x = x < 256

-- The sum of the 16-bit words of a text, a last odd byte being the high one of a word.
abbrev pub word_sum : List ℕ → ℕ
word_sum [] = 0
word_sum (x ∷ []) = x * 256
word_sum (x ∷ y ∷ xs) = x * 256 + y + word_sum xs

fold_loop_small : (fuel n : ℕ) → n < 65536 → fold_loop fuel n ≡ n
unfolding fold_loop
fold_loop_small zero n h = refl
fold_loop_small (suc fuel) n h = ground arith

-- The loop of `value` ends within its two rounds.
pub fold_loop_fuel : (n fuel : ℕ) → n < u32_mod → fold_loop (suc (suc fuel)) n ≡ fold_loop 2 n
unfolding fold_loop
fold_loop_fuel n fuel h =
    let once : ℕ = add32 (n / 65536) (n % 65536) in
    let twice : ℕ = add32 (once / 65536) (once % 65536) in
    ground (arith, fold_loop_small fuel twice (omega arith))

pub value_lem :
    (c : InternetChecksum)
    → c.sum < u32_mod
    → (value c < 65536) × ((c.sum + value c) % 65535 ≡ 0) × (0 < c.sum + value c)
unfolding value
value_lem c h = (omega arith, ground arith, ground arith)

pub value-lt : (c : InternetChecksum) → value c < 65536
unfolding value
value-lt c = omega arith

-- A sum passes the check exactly if it is a positive multiple of 65535.
pub value-zero :
    (c : InternetChecksum) → c.sum < u32_mod → 0 < c.sum → c.sum % 65535 ≡ 0 → value c ≡ 0
unfolding value
value-zero c h p e = ground arith

-- The text may come in pieces.
pub add-append : (c : InternetChecksum) (xs ys : List ℕ) → add c (xs ++ ys) ≡ add (add c xs) ys
unfolding add
add-append c [] ys = refl
add-append c (x ∷ xs) ys = add-append (add_byte c x) xs ys

-- From an even place on, the loop adds the words.
pub add_lem :
    (c : InternetChecksum) (xs : List ℕ)
    → c.parity ≡ false
    → All IsByte xs
    → c.sum + word_sum xs < u32_mod
    → (add c xs).sum ≡ c.sum + word_sum xs
unfolding add
add_lem c [] e b h = omega arith
add_lem c (x ∷ []) e b h = ground (arith, e)
add_lem c (x ∷ y ∷ xs) e b h =
    let c' = add_byte (add_byte c x) y in
    let once : c'.sum ≡ c.sum + (x * 256 + y) = ground (arith, e) in
    add_lem c' xs (ground (arith, e)) b.1.1 (omega arith) ∙ omega arith

pub word_sum_le : (xs : List ℕ) → All IsByte xs → word_sum xs ≤ 32768 * (length xs + 1)
word_sum_le [] b = omega arith
word_sum_le (x ∷ []) b = omega arith
word_sum_le (x ∷ y ∷ xs) b = omega (arith, word_sum_le xs b.1.1)

-- A text of bytes that has the checksum of another in it verifies: if the 16-bit words of `ys` add up
-- to those of `xs` and the checksum of `xs`, then the checksum of `ys` is 0, from the same initial
-- sum. That sum and the words of `xs` leave room for one word more in 32 bits.
pub checksum_verifies :
    (initial : ℕ) (xs ys : List ℕ)
    → All IsByte xs
    → All IsByte ys
    → initial + word_sum xs + 65535 < u32_mod
    → word_sum ys ≡ word_sum xs + value (add (checksum initial) xs)
    → value (add (checksum initial) ys) ≡ 0
checksum_verifies initial xs ys bx by h e =
    let c = add (checksum initial) xs in
    let ex : c.sum ≡ initial + word_sum xs = add_lem (checksum initial) xs refl bx (omega arith) in
    let v = value_lem c (omega arith) in
    let ey : (add (checksum initial) ys).sum ≡ initial + word_sum ys =
      add_lem (checksum initial) ys refl by (omega arith) in
    value-zero (add (checksum initial) ys) (omega arith) (omega arith) (omega arith)
