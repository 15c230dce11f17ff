-- ===== src/Base/Map.antt =====
-- `HashMap<usize, V>`: an association list with one entry for each key.
use Prim.Native.Nat.{ℕ}
use mathlib.Core.Path.{◌≡◌}
use mathlib.Core.Option.{Option, none, some}
use mathlib.Core.List.{List, [], ◌∷◌}
use native.Mathlib.Omega.{arith}
use electrum_sdk.Base.Tests.{if◌then◌else◌, nat_eq}

module _ {ℓ} {V : Type ℓ} where
  unfoldable pub get : List (ℕ × V) → ℕ → Option V
  get [] k = none
  get ((j, v) ∷ m) k = if nat_eq j k then some v else get m k

  unfoldable pub remove : List (ℕ × V) → ℕ → List (ℕ × V)
  remove [] k = []
  remove ((j, v) ∷ m) k = let rest = remove m k in if nat_eq j k then rest else (j, v) ∷ rest

  unfoldable pub insert : List (ℕ × V) → ℕ → V → List (ℕ × V)
  unfolding remove
  insert m k v = (k, v) ∷ remove m k

  pub get-remove :
      (m : List (ℕ × V)) (k j : ℕ) → get (remove m k) j ≡ (if nat_eq k j then none else get m j)
  unfolding get remove
  get-remove [] k j = ground arith
  get-remove ((i, v) ∷ m) k j = ground (arith, get-remove m k j)

  pub get-insert :
      (m : List (ℕ × V)) (k j : ℕ) (v : V)
      → get (insert m k v) j ≡ (if nat_eq k j then some v else get m j)
  unfolding get insert
  get-insert m k j v = ground (arith, get-remove m k j)
