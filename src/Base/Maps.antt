-- ===== src/Base/Maps.antt =====
-- `std::map` with numbers as keys: its entries in the order of the keys.
use Prim.Native.Nat.{ℕ}
use mathlib.Core.Path.{◌≡◌, refl}
use mathlib.Core.Logic.{◌≢◌}
use mathlib.Core.Option.{Option, none, some}
use mathlib.Core.List.{List, [], ◌∷◌}
use native.Mathlib.Omega.{arith}
use tcp_implementation.Base.Tests.{ltb, ◌==◌, if◌then◌else◌}

module _ {ℓ} {V : Type ℓ} where
  -- `find(key)`, `none` for the end.
  unfoldable pub find : ℕ → List (ℕ × V) → Option V
  find key [] = none
  find key ((k, v) ∷ m) = if k == key then some v else find key m

  -- `m[key] = value`.
  unfoldable pub assign : ℕ → V → List (ℕ × V) → List (ℕ × V)
  assign key value [] = (key, value) ∷ []
  assign key value ((k, v) ∷ m) =
      if ltb key k
      then (key, value) ∷ (k, v) ∷ m
      else if k == key
      then (key, value) ∷ m
      else (k, v) ∷ assign key value m

  -- `erase(key)`.
  unfoldable pub erase : ℕ → List (ℕ × V) → List (ℕ × V)
  erase key [] = []
  erase key ((k, v) ∷ m) = if k == key then erase key m else (k, v) ∷ erase key m

  pub find-assign :
      (key : ℕ) (value : V) (m : List (ℕ × V)) → find key (assign key value m) ≡ some value
  unfolding find assign
  find-assign key value [] = ground arith
  find-assign key value ((k, v) ∷ m) = ground (arith, find-assign key value m)

  pub find-assign_other :
      (other key : ℕ) (value : V) (m : List (ℕ × V))
      → other ≢ key
      → find other (assign key value m) ≡ find other m
  unfolding find assign
  find-assign_other other key value [] h = ground (arith, h)
  find-assign_other other key value ((k, v) ∷ m) h =
      ground (arith, h, find-assign_other other key value m h)

  pub find-erase : (key : ℕ) (m : List (ℕ × V)) → find key (erase key m) ≡ none
  unfolding find erase
  find-erase key [] = refl
  find-erase key ((k, v) ∷ m) = ground (arith, find-erase key m)

  pub find-erase_other :
      (other key : ℕ) (m : List (ℕ × V)) → other ≢ key → find other (erase key m) ≡ find other m
  unfolding find erase
  find-erase_other other key [] h = refl
  find-erase_other other key ((k, v) ∷ m) h = ground (arith, h, find-erase_other other key m h)
