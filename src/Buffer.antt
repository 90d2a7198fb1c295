-- ===== src/Buffer.antt =====
-- libsponge/util/buffer.hh and .cc. The string behind a `Buffer` is never written to, so that buffers may
-- share it; `none` is the pointer to no string. A function gives `none` where the source throws.
pub mod Bytes
mod Tests
use tcp_implementation.Base.{
  ℕ, zero, suc, ◌+◌, ◌-◌, Bool, true, false, List, [], ◌∷◌, ◌++◌, Option, none, some, ltb, ◌==◌,
  if◌then◌else◌, ◌>>=◌, length, drop, add64, map,
}

-- `class Buffer`.
pub record Buffer : Type 0 where
  pub storage : Option (List ℕ)
  pub starting_offset : ℕ

abbrev pub empty_buffer : Buffer
empty_buffer = record { storage = none; starting_offset = 0 }

-- The constructor that takes a string.
abbrev pub buffer : List ℕ → Buffer
buffer str = record { storage = some str; starting_offset = 0 }

abbrev view_at : Option (List ℕ) → ℕ → List ℕ
view_at none offset = []
view_at (some s) offset = drop offset s

-- `str()`, and `copy()`.
unfoldable pub str : Buffer → List ℕ
str b = view_at b.storage b.starting_offset

-- `Buffer::size()`.
abbrev pub buffer_size : Buffer → ℕ
buffer_size b = length (str b)

abbrev char_at : List ℕ → ℕ → Option ℕ
char_at [] n = none
char_at (x ∷ xs) zero = some x
char_at (x ∷ xs) (suc n) = char_at xs n

-- `at(n)`.
unfoldable pub at : Buffer → ℕ → Option ℕ
at b n = char_at (str b) n

abbrev release : Option (List ℕ) → ℕ → Option (List ℕ)
release none offset = none
release (some s) offset = if offset == length s then none else some s

-- `Buffer::remove_prefix(n)`.
unfoldable pub buffer_remove_prefix : Buffer → ℕ → Option Buffer
buffer_remove_prefix b n =
    let offset = b.starting_offset + n in
    if ltb (buffer_size b) n
    then none
    else some (record { storage = release b.storage offset; starting_offset = offset })

-- `BufferList::append(other)`.
abbrev pub append : List Buffer → List Buffer → List Buffer
append bufs [] = bufs
append bufs (buf ∷ other) = append (bufs ++ buf ∷ []) other

-- `BufferList::operator Buffer()`.
unfoldable pub to_buffer : List Buffer → Option Buffer
to_buffer [] = some empty_buffer
to_buffer (b ∷ []) = some b
to_buffer (b ∷ b' ∷ rest) = none

-- The loop of `concatenate()`.
unfoldable pub concatenate_loop : List Buffer → List ℕ → List ℕ
concatenate_loop [] ret = ret
concatenate_loop (buf ∷ rest) ret = concatenate_loop rest (ret ++ str buf)

-- `BufferList::concatenate()`.
unfoldable pub concatenate : List Buffer → List ℕ
concatenate bufs = concatenate_loop bufs []

-- The loop of `BufferList::size()`.
unfoldable pub size_loop : List Buffer → ℕ → ℕ
size_loop [] ret = ret
size_loop (buf ∷ rest) ret = size_loop rest (add64 ret (buffer_size buf))

unfoldable pub size : List Buffer → ℕ
size bufs = size_loop bufs 0

-- The loop of `BufferList::remove_prefix(n)`.
unfoldable pub remove_prefix : List Buffer → ℕ → Option (List Buffer)
remove_prefix [] n = if n == 0 then some [] else none
remove_prefix (front ∷ rest) n =
    let popped = remove_prefix rest (n - buffer_size front) in
    if n == 0
    then some (front ∷ rest)
    else if ltb n (buffer_size front)
    then (do front ← buffer_remove_prefix front n; some (front ∷ rest))
    else popped

-- `BufferViewList(buffers)`.
abbrev pub views : List Buffer → List (List ℕ)
views [] = []
views (x ∷ rest) = str x ∷ views rest

-- The loop of `BufferViewList::remove_prefix(n)`.
unfoldable pub views_remove_prefix : List (List ℕ) → ℕ → Option (List (List ℕ))
views_remove_prefix [] n = if n == 0 then some [] else none
views_remove_prefix (front ∷ rest) n =
    let popped = views_remove_prefix rest (n - length front) in
    if n == 0
    then some (front ∷ rest)
    else if ltb n (length front)
    then some (drop n front ∷ rest)
    else popped

-- The loop of `BufferViewList::size()`.
unfoldable pub views_size_loop : List (List ℕ) → ℕ → ℕ
views_size_loop [] ret = ret
views_size_loop (buf ∷ rest) ret = views_size_loop rest (add64 ret (length buf))

unfoldable pub views_size : List (List ℕ) → ℕ
views_size vs = views_size_loop vs 0
