-- ===== src/Base/Equality.antt =====
-- Decidable equality as an interface, for `HashSet` elements.
use Prim.Native.Nat.{ℕ}
use mathlib.Core.Path.{◌≡◌, refl}
use mathlib.Core.Logic.{◌↔◌}
use mathlib.Core.Bool.{Bool, true, false, ◌&&◌}
use mathlib.Core.List.{List, [], ◌∷◌}
use native.Mathlib.Omega.{arith}
use electrum_sdk.Base.Tests.{nat_eq, nat_eq_iff}

pub record Eq {ℓ} (A : Type ℓ) : Type ℓ where
  pub equal : A → A → Bool
  pub equal_iff : (x y : A) → (equal x y ≡ true) ↔ (x ≡ y)

infix 50 ◌==◌
abbrev pub ◌==◌ {ℓ} : {S : Type ℓ} ⦃test : Eq S⦄ → S → S → Bool
◌==◌ ⦃test⦄ = test.equal

instance abbrev pub ℕ_eq : Eq ℕ
ℕ_eq = record { equal = nat_eq; equal_iff = nat_eq_iff }

abbrev pub bytes_eq : List ℕ → List ℕ → Bool
bytes_eq [] [] = true
bytes_eq (a ∷ as') (b ∷ bs) = nat_eq a b && bytes_eq as' bs
bytes_eq _ _ = false

pub bytes_eq_iff : (a b : List ℕ) → (bytes_eq a b ≡ true) ↔ (a ≡ b)
bytes_eq_iff [] [] = (λ _. refl, λ _. refl)
bytes_eq_iff [] (b ∷ bs) = ground arith
bytes_eq_iff (a ∷ r) [] = ground arith
bytes_eq_iff (a ∷ r) (b ∷ bs) = ground (arith, bytes_eq_iff r bs)
