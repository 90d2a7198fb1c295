-- ===== src/Checksum/Tests.antt =====
-- A checksum put behind a text.
use tcp_implementation.Base.{◌≡◌, refl, arith, [], ◌∷◌}
use tcp_implementation.Checksum.{checksum, add, value, fold_loop}
use tcp_implementation.Checksum.Laws.{checksum_verifies}

text_sum : value (add (checksum 7) (1 ∷ 2 ∷ 3 ∷ 4 ∷ [])) ≡ 64498
unfolding value add fold_loop
text_sum = refl

checksum_verifies_example : value (add (checksum 7) (1 ∷ 2 ∷ 3 ∷ 4 ∷ 251 ∷ 242 ∷ [])) ≡ 0
checksum_verifies_example =
    checksum_verifies 7 (1 ∷ 2 ∷ 3 ∷ 4 ∷ []) (1 ∷ 2 ∷ 3 ∷ 4 ∷ 251 ∷ 242 ∷ []) (ground arith)
      (ground arith) (omega arith) (omega (arith, text_sum))
