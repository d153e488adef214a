-- ===== src/Base/Maps.antt =====
-- `BTreeMap` over `u64` keys: its entries in the order of the keys. A key stands once in a map that
-- is built by these operations.
pub mod Entries
pub mod Removal
use Prim.Native.Nat.{ℕ, ◌<◌}
use mathlib.Core.Path.{◌≡◌, refl}
use mathlib.Core.Logic.{◌⊎◌, inl, inr}
use mathlib.Core.Bool.{Bool, true, false, ◌||◌}
use mathlib.Core.List.{List, [], ◌∷◌}
use mathlib.Core.Option.{Option, none, some}
use native.Mathlib.Omega.{arith}
use tear.Base.Tests.{ltb, ◌==◌, if◌then◌else◌, Option-cases}

abbrev pub BTreeMap : Type 0 → Type 0
BTreeMap V = List (ℕ × V)

module _ {V : Type 0} where
  abbrev pub get : ℕ → BTreeMap V → Option V
  get k [] = none
  get k ((j, v) ∷ m) = if j == k then some v else get k m

  abbrev pub contains_key : ℕ → BTreeMap V → Bool
  contains_key k [] = false
  contains_key k ((j, v) ∷ m) = j == k || contains_key k m

  abbrev pub insert : ℕ → V → BTreeMap V → BTreeMap V
  insert k v [] = (k, v) ∷ []
  insert k v ((j, w) ∷ m) =
      if ltb k j then (k, v) ∷ (j, w) ∷ m else if j == k then (k, v) ∷ m else (j, w) ∷ insert k v m

  abbrev pub remove : ℕ → BTreeMap V → BTreeMap V
  remove k [] = []
  remove k ((j, v) ∷ m) = if j == k then remove k m else (j, v) ∷ remove k m

  -- A write through `get_mut`: nothing, where the key is not there.
  abbrev pub modify : ℕ → (V → V) → BTreeMap V → BTreeMap V
  modify k f [] = []
  modify k f ((j, v) ∷ m) = (j, if j == k then f v else v) ∷ modify k f m

  abbrev pub keys : BTreeMap V → List ℕ
  keys [] = []
  keys ((j, v) ∷ m) = j ∷ keys m

  -- `keys().next().copied().unwrap_or(0)`
  abbrev pub first_key : BTreeMap V → ℕ
  first_key [] = 0
  first_key ((j, v) ∷ m) = j

  abbrev pub remove_all : List ℕ → BTreeMap V → BTreeMap V
  remove_all [] m = m
  remove_all (k ∷ ks) m = remove_all ks (remove k m)

  pub get-insert :
      (k j : ℕ) (v : V) (m : BTreeMap V)
      → get j (insert k v m) ≡ (if k == j then some v else get j m)
  get-insert k j v [] = refl
  get-insert k j v ((i, w) ∷ m) = ground (arith, get-insert k j v m)

  pub get-remove :
      (k j : ℕ) (m : BTreeMap V) → get j (remove k m) ≡ (if k == j then none else get j m)
  get-remove k j [] = ground arith
  get-remove k j ((i, w) ∷ m) = ground (arith, get-remove k j m)

  pub get-modify :
      (k j : ℕ) (f : V → V) (m : BTreeMap V)
      → get j (modify k f m)
        ≡ (if k == j then (elim (get j m) [ none ↦ none | some v ↦ some (f v) ]) else get j m)
  get-modify k j f [] = ground arith
  get-modify k j f ((i, w) ∷ m) = ground (arith, get-modify k j f m)

  pub contains_key-get :
      (k : ℕ) (m : BTreeMap V)
      → contains_key k m ≡ (elim (get k m) [ none ↦ false | some v ↦ true ])
  contains_key-get k [] = refl
  contains_key-get k ((i, w) ∷ m) = ground (arith, contains_key-get k m)

  pub get_of_contains :
      (k : ℕ) (m : BTreeMap V) → contains_key k m ≡ true → (v : V) × (get k m ≡ some v)
  get_of_contains k m h = elim (Option-cases (get k m)) [
    | inl e ↦ absurd (cc (contains_key-get k m, e))
    | inr (v, e) ↦ (v, e)
  ]

  pub contains_of_get :
      (k : ℕ) (v : V) (m : BTreeMap V) → get k m ≡ some v → contains_key k m ≡ true
  contains_of_get k v m h = ground (arith, contains_key-get k m)

  pub contains-insert :
      (k j : ℕ) (v : V) (m : BTreeMap V)
      → contains_key j (insert k v m) ≡ (k == j || contains_key j m)
  contains-insert k j v [] = refl
  contains-insert k j v ((i, w) ∷ m) = ground (arith, contains-insert k j v m)

  pub contains-remove :
      (k j : ℕ) (m : BTreeMap V)
      → contains_key j (remove k m) ≡ (if k == j then false else contains_key j m)
  contains-remove k j [] = ground arith
  contains-remove k j ((i, w) ∷ m) = ground (arith, contains-remove k j m)

  pub contains-modify :
      (k j : ℕ) (f : V → V) (m : BTreeMap V) → contains_key j (modify k f m) ≡ contains_key j m
  contains-modify k j f [] = refl
  contains-modify k j f ((i, w) ∷ m) = ground (arith, contains-modify k j f m)

  pub first_key-contains : (m : BTreeMap V) → (m ≡ []) ⊎ (contains_key (first_key m) m ≡ true)
  first_key-contains [] = inl refl
  first_key-contains ((j, v) ∷ m) = inr (ground arith)

  -- The first entry, in the order of the keys, whose value passes a test.
  abbrev pub find_first : (V → Bool) → BTreeMap V → Option (ℕ × V)
  find_first test [] = none
  find_first test ((k, v) ∷ m) = if test v then some (k, v) else find_first test m

  -- `for v in values_mut() { if test(v) { v = f(v); break } }`
  abbrev pub modify_first : (V → Bool) → (V → V) → BTreeMap V → BTreeMap V
  modify_first test f [] = []
  modify_first test f ((k, v) ∷ m) = if test v then (k, f v) ∷ m else (k, v) ∷ modify_first test f m

  -- Every key is above a bound; and the keys go up, so that each stands once.
  abbrev pub AllAbove : ℕ → BTreeMap V → Type 0
  AllAbove k [] = Unit
  AllAbove k ((j, v) ∷ m) = (k < j) × AllAbove k m

  abbrev pub Ascending : BTreeMap V → Type 0
  Ascending [] = Unit
  Ascending ((k, v) ∷ m) = AllAbove k m × Ascending m
