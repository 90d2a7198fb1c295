-- ===== src/FileDescriptor/Tests.antt =====
-- Runs of file_descriptor.cc.
use tcp_implementation.Base.{◌≡◌, refl, [], ◌∷◌, true, false, some}
use tcp_implementation.FileDescriptor.{descriptor, read, write, write_rounds, done, throws}

-- A read that got nothing is at the end of the file.
reads_end :
    read (descriptor 3) 10 (some [])
    ≡ some (record (descriptor 3) { eof = true; read_count = 1 }, [])
unfolding read
reads_end = refl

-- A write of all bytes is tried again for those that are left.
writes_again :
    write (descriptor 3) (1 ∷ 2 ∷ 3 ∷ []) true (some 2 ∷ some 1 ∷ [])
    ≡ done (record (descriptor 3) { write_count = 2 }) 3 (1 ∷ 2 ∷ 3 ∷ [])
unfolding write write_rounds
writes_again = refl

-- Without `write_all` it is not.
writes_once :
    write (descriptor 3) (1 ∷ 2 ∷ 3 ∷ []) false (some 2 ∷ some 1 ∷ [])
    ≡ done (record (descriptor 3) { write_count = 1 }) 2 (1 ∷ 2 ∷ [])
unfolding write write_rounds
writes_once = refl

-- Where nothing is written of some bytes, it throws.
writes_nothing : write (descriptor 3) (1 ∷ []) true (some 0 ∷ []) ≡ throws
unfolding write write_rounds
writes_nothing = refl
