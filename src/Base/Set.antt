-- ===== src/Base/Set.antt =====
-- `HashSet`: a list without repetitions; the order of iteration is that of the list.
use mathlib.Core.Path.{◌≡◌, refl}
use mathlib.Core.Logic.{inl, inr}
use mathlib.Core.Bool.{Bool, true, false, ◌||◌, not, ◌&&◌}
use mathlib.Core.List.{List, [], ◌∷◌, Perm}
use mathlib.Core.List.Perm
use native.Mathlib.Omega.{arith}
use electrum_sdk.Base.Tests.{if◌then◌else◌, Bool-cases}
use electrum_sdk.Base.Lists.{All}
use electrum_sdk.Base.Equality.{Eq, ◌==◌}

module _ {ℓ} {A : Type ℓ} ⦃e : Eq A⦄ where
  unfoldable pub contains : List A → A → Bool
  contains [] a = false
  contains (x ∷ xs) a = a == x || contains xs a

  unfoldable pub insert : List A → A → List A
  unfolding contains
  insert xs a = if contains xs a then xs else a ∷ xs

  unfoldable pub remove : List A → A → List A
  remove [] a = []
  remove (x ∷ xs) a = let rest = remove xs a in if a == x then rest else x ∷ rest

  -- No element twice.
  abbrev pub Distinct : List A → Type 0
  Distinct [] = Unit
  Distinct (x ∷ xs) = (contains xs x ≡ false) × Distinct xs

  pub contains-insert :
      (xs : List A) (a b : A) → contains (insert xs a) b ≡ (b == a || contains xs b)
  unfolding insert contains
  contains-insert xs a b = ground (arith, e.equal_iff b a)

  pub contains-remove :
      (xs : List A) (a b : A) → contains (remove xs a) b ≡ (not (b == a) && contains xs b)
  unfolding remove contains
  contains-remove [] a b = ground arith
  contains-remove (x ∷ xs) a b =
      ground (arith, contains-remove xs a b, e.equal_iff b a, e.equal_iff a x, e.equal_iff b x)

  pub remove_absent : (xs : List A) (a : A) → contains xs a ≡ false → remove xs a ≡ xs
  unfolding remove contains
  remove_absent [] a h = refl
  remove_absent (x ∷ xs) a h = ground (arith, remove_absent xs a)

  pub Distinct-remove : (xs : List A) (a : A) → Distinct xs → Distinct (remove xs a)
  unfolding remove
  Distinct-remove [] a d = tt
  Distinct-remove (x ∷ xs) a d = ground (arith, Distinct-remove xs a d.1, contains-remove xs a x)

  pub Distinct-insert : (xs : List A) (a : A) → Distinct xs → Distinct (insert xs a)
  unfolding insert
  Distinct-insert xs a d = ground arith

  -- What is removed from a set, put in front of the rest, is the set again up to order.
  pub remove-perm :
      (xs : List A) (a : A) → Distinct xs → contains xs a ≡ true → Perm (a ∷ remove xs a) xs
  unfolding remove contains
  remove-perm [] a d h = cc
  remove-perm (x ∷ xs) a d h = elim (Bool-cases (a == x)) [
    | inl hit ↦
        let same : a ≡ x = (e.equal_iff a x).0 hit in
        rw (hit, remove_absent xs a (rw (← same) at d.0), same) (Perm.refl (x ∷ xs))
    | inr miss ↦ rw miss (
        Perm.trans (Perm.swap x a (remove xs a))
          (Perm.cons x (remove-perm xs a d.1 (ground (arith, miss)))))
  ]

  pub contains_self : (xs : List A) (a : A) → contains (a ∷ xs) a ≡ true
  unfolding contains
  contains_self xs a = rw ((e.equal_iff a a).1 refl)

  pub contains-nil : (a : A) → contains [] a ≡ false
  unfolding contains
  contains-nil a = refl

  pub contains-insert_self : (xs : List A) (a : A) → contains (insert xs a) a ≡ true
  contains-insert_self xs a = ground (arith, contains-insert xs a a, e.equal_iff a a)

  -- An element that is put in and taken out again leaves the members as they were.
  pub contains-remove-insert :
      (xs : List A) (a b : A)
      → contains xs a ≡ false
      → contains (remove (insert xs a) a) b ≡ contains xs b
  contains-remove-insert xs a b h =
      ground (arith, h, contains-remove (insert xs a) a b, contains-insert xs a b, e.equal_iff b a)

  -- What is absent from a set, and not the element that is put in, is absent afterwards.
  pub absent-insert :
      (xs : List A) (a : A) (ts : List A)
      → contains ts a ≡ false
      → All (λ t. contains xs t ≡ false) ts
      → All (λ t. contains (insert xs a) t ≡ false) ts
  unfolding contains
  absent-insert xs a [] h n = tt
  absent-insert xs a (t ∷ ts) h n = (
    ground (arith, h, n.0, contains-insert xs a t, e.equal_iff a t, e.equal_iff t a),
    absent-insert xs a ts (ground (arith, h)) n.1,
  )

  -- What is absent after an element is put in was absent before, and is not the element.
  pub absent-insert_old :
      (xs : List A) (a : A) (ts : List A)
      → All (λ t. contains (insert xs a) t ≡ false) ts
      → (contains ts a ≡ false) × All (λ t. contains xs t ≡ false) ts
  unfolding contains
  absent-insert_old xs a [] n = (refl, tt)
  absent-insert_old xs a (t ∷ ts) n =
      let (h, m) = absent-insert_old xs a ts n.1 in
      (
        ground (arith, h, n.0, contains-insert xs a t, e.equal_iff a t, e.equal_iff t a),
        (ground (arith, n.0, contains-insert xs a t), m),
      )

  pub contains-insert_old :
      (xs : List A) (a b : A) → contains xs b ≡ true → contains (insert xs a) b ≡ true
  contains-insert_old xs a b h = ground (arith, h, contains-insert xs a b)

  pub contains-insert_cons :
      (xs ts : List A) (a b : A) {r : Bool}
      → r ≡ (contains ts b || contains (insert xs a) b)
      → r ≡ (contains (a ∷ ts) b || contains xs b)
  unfolding contains
  contains-insert_cons xs ts a b h = ground (arith, h, contains-insert xs a b)
