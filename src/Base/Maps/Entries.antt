-- ===== src/Base/Maps/Entries.antt =====
-- Where an entry of a changed map comes from, and that the changes keep the keys in order.
use Prim.Native.Nat.{ℕ, ◌<◌}
use mathlib.Core.Path.{◌≡◌, refl, subst}
use mathlib.Core.Logic.{◌≢◌, ◌⊎◌, inl, inr}
use mathlib.Core.Bool.{Bool, true, false}
use mathlib.Core.List.{[], ◌∷◌}
use mathlib.Core.Option.{none, some}
use native.Mathlib.Omega.{arith}
use tear.Base.Tests.{◌==◌, ==_iff, Bool-cases}
use tear.Base.Maps.{
  BTreeMap, get, insert, remove, modify, find_first, modify_first, AllAbove, Ascending, get-insert,
  get-remove,
}

module _ {V : Type 0} where
  pub get-modify_cases :
      (k j : ℕ) (g : V → V) (m : BTreeMap V) (v : V)
      → get j (modify k g m) ≡ some v
      → ((k ≡ j) × ((w : V) × (get j m ≡ some w) × (v ≡ g w))) ⊎ ((k ≢ j) × (get j m ≡ some v))
  get-modify_cases k j g [] v h = absurd (cc h)
  get-modify_cases k j g ((i, u) ∷ m) v h = elim (Bool-cases (i == j)) [
    | inl here ↦ elim (Bool-cases (k == j)) [
      | inl hit ↦ inl (ground arith, (u, ground arith, ground arith))
      | inr miss ↦ inr (ground arith, ground arith)
    ]
    | inr later ↦ elim (get-modify_cases k j g m v (ground arith)) [
      | inl (e, (w, found, is)) ↦ inl (e, (w, ground arith, is))
      | inr (ne, found) ↦ inr (ne, ground arith)
    ]
  ]

  pub get-modify_first_cases :
      (test : V → Bool) (g : V → V) (j : ℕ) (m : BTreeMap V) (v : V)
      → get j (modify_first test g m) ≡ some v
      → (get j m ≡ some v) ⊎ ((w : V) × (get j m ≡ some w) × (test w ≡ true) × (v ≡ g w))
  get-modify_first_cases test g j [] v h = absurd (cc h)
  get-modify_first_cases test g j ((i, u) ∷ m) v h = elim (Bool-cases (test u)) [
    | inl hit ↦ elim (Bool-cases (i == j)) [
      | inl here ↦ inr (u, ground arith, hit, ground arith)
      | inr later ↦ inl (ground arith)
    ]
    | inr miss ↦ elim (Bool-cases (i == j)) [
      | inl here ↦ inl (ground arith)
      | inr later ↦ elim (get-modify_first_cases test g j m v (ground arith)) [
        | inl found ↦ inl (ground arith)
        | inr (w, found, passed, is) ↦ inr (w, ground arith, passed, is)
      ]
    ]
  ]

  pub get-remove_found :
      (k j : ℕ) (m : BTreeMap V) (v : V)
      → get j (remove k m) ≡ some v
      → (k ≢ j) × (get j m ≡ some v)
  get-remove_found k j m v h = (ground (arith, get-remove k j m), ground (arith, get-remove k j m))

  pub get-insert_cases :
      (k j : ℕ) (w : V) (m : BTreeMap V) (v : V)
      → get j (insert k w m) ≡ some v
      → ((k ≡ j) × (v ≡ w)) ⊎ ((k ≢ j) × (get j m ≡ some v))
  get-insert_cases k j w m v h = ground (arith, get-insert k j w m)

  -- The entry that a search finds is in the map, and passes the test.
  pub AllAbove-absent : (k : ℕ) (m : BTreeMap V) → AllAbove k m → get k m ≡ none
  AllAbove-absent k [] h = refl
  AllAbove-absent k ((j, v) ∷ m) h = ground (arith, AllAbove-absent k m h.1)

  pub AllAbove-lt : (k j : ℕ) (m : BTreeMap V) (v : V) → AllAbove k m → get j m ≡ some v → k < j
  AllAbove-lt k j [] v h e = absurd (cc e)
  AllAbove-lt k j ((i, w) ∷ m) v h e = ground (arith, AllAbove-lt k j m v h.1)

  pub find_first_found :
      (test : V → Bool) (m : BTreeMap V) (k : ℕ) (v : V)
      → Ascending m
      → find_first test m ≡ some (k, v)
      → (get k m ≡ some v) × (test v ≡ true)
  find_first_found test [] k v asc h = absurd (cc h)
  find_first_found test ((j, w) ∷ m) k v asc h = elim (Bool-cases (test w)) [
    | inl hit ↦ (ground arith, ground arith)
    | inr miss ↦
        let (found, passed) = find_first_found test m k v asc.1 (ground arith) in
        (ground (arith, AllAbove-lt j k m v asc.0 found), passed)
  ]

  pub find_first_missed :
      (test : V → Bool) (m : BTreeMap V) (k : ℕ) (v : V)
      → find_first test m ≡ none
      → get k m ≡ some v
      → test v ≡ false
  find_first_missed test [] k v h e = absurd (cc e)
  find_first_missed test ((j, w) ∷ m) k v h e = ground (arith, find_first_missed test m k v)

  AllAbove-from : (j k : ℕ) (m : BTreeMap V) → AllAbove j m → j ≡ k → AllAbove k m
  AllAbove-from j k m h e = subst (λ b. AllAbove b m) e h

  AllAbove-modify_self : (k : ℕ) (g : V → V) (m : BTreeMap V) → AllAbove k m → modify k g m ≡ m
  AllAbove-modify_self k g [] h = refl
  AllAbove-modify_self k g ((i, u) ∷ m) h = ground (arith, AllAbove-modify_self k g m h.1)

  -- With the keys in order, the change is at the key that the search finds.
  pub modify_first-found :
      (test : V → Bool) (g : V → V) (m : BTreeMap V) (k : ℕ) (v : V)
      → Ascending m
      → find_first test m ≡ some (k, v)
      → modify_first test g m ≡ modify k g m
  modify_first-found test g [] k v asc h = refl
  modify_first-found test g ((j, w) ∷ m) k v asc h = elim (Bool-cases (test w)) [
    | inl hit ↦ rw hit (
        ground (
          arith,
          ==_iff j k,
          AllAbove-modify_self k g m (AllAbove-from j k m asc.0 (ground arith)),
        ))
    | inr miss ↦
        let rest : find_first test m ≡ some (k, v) = ground arith in
        let (found, passed) = find_first_found test m k v asc.1 rest in
        ground (arith, modify_first-found test g m k v asc.1 rest, AllAbove-lt j k m v asc.0 found)
  ]

  AllAbove-insert :
      (b k : ℕ) (v : V) (m : BTreeMap V) → b < k → AllAbove b m → AllAbove b (insert k v m)
  AllAbove-insert b k v [] lt h = (lt, tt)
  AllAbove-insert b k v ((j, w) ∷ m) lt h = ground (arith, AllAbove-insert b k v m lt h.1)

  AllAbove-weaken : (a b : ℕ) (m : BTreeMap V) → a < b → AllAbove b m → AllAbove a m
  AllAbove-weaken a b [] lt h = tt
  AllAbove-weaken a b ((j, w) ∷ m) lt h = (omega arith, AllAbove-weaken a b m lt h.1)

  pub insert-Ascending : (k : ℕ) (v : V) (m : BTreeMap V) → Ascending m → Ascending (insert k v m)
  insert-Ascending k v [] h = (tt, tt)
  insert-Ascending k v ((j, w) ∷ m) h =
      ground (arith, insert-Ascending k v m h.1, AllAbove-insert j k v m, AllAbove-weaken k j m)

  AllAbove-remove : (b k : ℕ) (m : BTreeMap V) → AllAbove b m → AllAbove b (remove k m)
  AllAbove-remove b k [] h = tt
  AllAbove-remove b k ((j, w) ∷ m) h = ground (arith, AllAbove-remove b k m h.1)

  pub remove-Ascending : (k : ℕ) (m : BTreeMap V) → Ascending m → Ascending (remove k m)
  remove-Ascending k [] h = tt
  remove-Ascending k ((j, w) ∷ m) h =
      ground (arith, remove-Ascending k m h.1, AllAbove-remove j k m h.0)

  AllAbove-modify :
      (b k : ℕ) (g : V → V) (m : BTreeMap V) → AllAbove b m → AllAbove b (modify k g m)
  AllAbove-modify b k g [] h = tt
  AllAbove-modify b k g ((j, w) ∷ m) h = (h.0, AllAbove-modify b k g m h.1)

  pub modify-Ascending :
      (k : ℕ) (g : V → V) (m : BTreeMap V) → Ascending m → Ascending (modify k g m)
  modify-Ascending k g [] h = tt
  modify-Ascending k g ((j, w) ∷ m) h = (AllAbove-modify j k g m h.0, modify-Ascending k g m h.1)

  AllAbove-modify_first :
      (b : ℕ) (test : V → Bool) (g : V → V) (m : BTreeMap V)
      → AllAbove b m
      → AllAbove b (modify_first test g m)
  AllAbove-modify_first b test g [] h = tt
  AllAbove-modify_first b test g ((j, w) ∷ m) h =
      ground (arith, AllAbove-modify_first b test g m h.1)

  pub modify_first-Ascending :
      (test : V → Bool) (g : V → V) (m : BTreeMap V)
      → Ascending m
      → Ascending (modify_first test g m)
  modify_first-Ascending test g [] h = tt
  modify_first-Ascending test g ((j, w) ∷ m) h =
      ground (arith, modify_first-Ascending test g m h.1, AllAbove-modify_first j test g m h.0)
