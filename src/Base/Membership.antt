-- ===== src/Base/Membership.antt =====
-- Membership tests in a sequence, over any type whose values can be compared.
use mathlib.Core.Path.{◌≡◌, refl}
use mathlib.Core.Bool.{Bool, true, false, ◌||◌}
use mathlib.Core.List.{List, [], ◌∷◌, ◌++◌}
use native.Mathlib.Omega.{arith}
use tear.Base.Tests.{if◌then◌else◌}
use tear.Base.Compare.{Eq, ◌=?◌}

module _ {ℓ} {A : Type ℓ} ⦃e : Eq A⦄ where
  -- `slice::contains`
  abbrev pub elem : A → List A → Bool
  elem a [] = false
  elem a (x ∷ xs) = x =? a || elem a xs

  -- No value stands twice.
  abbrev pub Distinct : List A → Type 0
  Distinct [] = Unit
  Distinct (x ∷ xs) = (elem x xs ≡ false) × Distinct xs

  -- The sequence without any occurrence of a value.
  abbrev pub without : A → List A → List A
  without a [] = []
  without a (x ∷ xs) = if x =? a then without a xs else x ∷ without a xs

  pub beq_refl : (a : A) → (a =? a) ≡ true
  beq_refl a = (e.beq_iff a a).1 refl

  pub elem-append : (a : A) (xs ys : List A) → elem a (xs ++ ys) ≡ (elem a xs || elem a ys)
  elem-append a [] ys = refl
  elem-append a (x ∷ xs) ys = ground (arith, elem-append a xs ys)

  pub without-absent : (a : A) (xs : List A) → elem a xs ≡ false → without a xs ≡ xs
  without-absent a [] h = refl
  without-absent a (x ∷ xs) h = ground (arith, without-absent a xs)

  pub without-append :
      (a : A) (xs ys : List A) → without a (xs ++ ys) ≡ without a xs ++ without a ys
  without-append a [] ys = refl
  without-append a (x ∷ xs) ys = ground (arith, without-append a xs ys)

  pub elem-without : (a b : A) (xs : List A) → elem b xs ≡ false → elem b (without a xs) ≡ false
  elem-without a b [] h = refl
  elem-without a b (x ∷ xs) h = ground (arith, elem-without a b xs)

  pub elem-without_self : (a : A) (xs : List A) → elem a (without a xs) ≡ false
  elem-without_self a [] = refl
  elem-without_self a (x ∷ xs) = ground (arith, elem-without_self a xs)

  pub without-Distinct : (a : A) (xs : List A) → Distinct xs → Distinct (without a xs)
  without-Distinct a [] h = tt
  without-Distinct a (x ∷ xs) h = ground (arith, without-Distinct a xs h.1, elem-without a x xs h.0)

  -- Two distinct sequences with nothing in common.
  abbrev pub Apart : List A → List A → Type 0
  Apart [] ys = Unit
  Apart (x ∷ xs) ys = (elem x ys ≡ false) × Apart xs ys

  pub Distinct-append :
      (xs ys : List A) → Distinct xs → Distinct ys → Apart xs ys → Distinct (xs ++ ys)
  Distinct-append [] ys hx hy h = hy
  Distinct-append (x ∷ xs) ys hx hy h =
      ground (arith, elem-append x xs ys, Distinct-append xs ys hx.1 hy h.1)

  pub Distinct-split :
      (xs ys : List A) → Distinct (xs ++ ys) → Distinct xs × Distinct ys × Apart xs ys
  Distinct-split [] ys h = (tt, h, tt)
  Distinct-split (x ∷ xs) ys h =
      let r = Distinct-split xs ys h.1 in
      ((ground (arith, elem-append x xs ys), r.0), r.1, (ground (arith, elem-append x xs ys), r.2))

  pub Apart-elem : (a : A) (xs ys : List A) → Apart xs ys → elem a xs ≡ true → elem a ys ≡ false
  Apart-elem a [] ys h m = ground arith
  Apart-elem a (x ∷ xs) ys h m = ground (arith, Apart-elem a xs ys h.1, e.beq_iff x a)
