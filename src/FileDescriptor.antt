-- ===== src/FileDescriptor.antt =====
-- libsponge/util/file_descriptor.hh and .cc. What a system call returns is an argument; `none` is an
-- error, which `SystemCall` throws. A function gives `none` where the source throws.
pub mod Transfer
mod Tests
use tcp_implementation.Base.{
  ℕ, ◌+◌, ◌%◌, Bool, true, false, ◌&&◌, not, List, [], ◌∷◌, ◌++◌, take, Option, none, some, ltb,
  ◌==◌, if◌then◌else◌, ◌>>=◌, length, drop, min, u32_mod, add64,
}

-- `FileDescriptor::FDWrapper`.
pub record FileDescriptor : Type 0 where
  pub fd : ℕ
  pub eof : Bool
  pub closed : Bool
  pub read_count : ℕ
  pub write_count : ℕ

-- The constructor.
abbrev pub descriptor : ℕ → FileDescriptor
descriptor fd = record { fd = fd; eof = false; closed = false; read_count = 0; write_count = 0 }

-- `register_read()` and `register_write()`.
abbrev pub register_read : FileDescriptor → FileDescriptor
register_read f = record f { read_count = (f.read_count + 1) % u32_mod }

abbrev pub register_write : FileDescriptor → FileDescriptor
register_write f = record f { write_count = (f.write_count + 1) % u32_mod }

-- `FDWrapper::close()`.
abbrev pub close_descriptor : FileDescriptor → FileDescriptor
close_descriptor f = record f { eof = true; closed = true }

-- The greatest size of a read.
abbrev pub read_size : ℕ
read_size = 1048576

-- `read(limit)`, where the system call gives `result`.
unfoldable pub read : FileDescriptor → ℕ → Option (List ℕ) → Option (FileDescriptor × List ℕ)
read f limit result = do
  bytes ← result
  let at_end : FileDescriptor =
      if ltb 0 limit && length bytes == 0 then record f { eof = true } else f
  if ltb (min read_size limit) (length bytes) then none else some (register_read at_end, bytes)

-- What `write` comes to with the results of system calls that there are: the count that it returns,
-- and the bytes that the system calls took.
pub data Written : Type 0 where
  done : FileDescriptor → ℕ → List ℕ → Written
  throws : Written
  blocks : Written

-- The bytes that a system call takes are before those that the later ones take.
abbrev pub after_bytes : List ℕ → Written → Written
after_bytes taken (done f n output) = done f n (taken ++ output)
after_bytes taken throws = throws
after_bytes taken blocks = blocks

-- The loop of `write(buffer, write_all)`, where the system calls give `results` in turn. The buffer is
-- its bytes, of which `writev` that returns `n` takes the first `n`.
unfoldable pub write_rounds : FileDescriptor → List ℕ → Bool → ℕ → List (Option ℕ) → Written
write_rounds f buffer write_all total [] = blocks
write_rounds f buffer write_all total (none ∷ results) = throws
write_rounds f buffer write_all total (some n ∷ results) =
    let rest = drop n buffer in
    let total' = add64 total n in
    let again =
      after_bytes (take n buffer) (write_rounds (register_write f) rest write_all total' results) in
    if n == 0 && not (length buffer == 0)
    then throws
    else if ltb (length buffer) n
    then throws
    else if write_all && not (length rest == 0)
    then again
    else done (register_write f) total' (take n buffer)

-- `write(buffer, write_all)`.
unfoldable pub write : FileDescriptor → List ℕ → Bool → List (Option ℕ) → Written
write f buffer write_all results = write_rounds f buffer write_all 0 results
