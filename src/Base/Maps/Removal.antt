-- ===== src/Base/Maps/Removal.antt =====
-- Maps with several keys removed.
use Prim.Native.Nat.{ℕ}
use mathlib.Core.Path.{◌≡◌, refl}
use mathlib.Core.Bool.{false}
use mathlib.Core.List.{List, [], ◌∷◌}
use mathlib.Core.Option.{none}
use native.Mathlib.Omega.{arith}
use tear.Base.Tests.{if◌then◌else◌}
use tear.Base.Compare.{nat_eq}
use tear.Base.Membership.{elem}
use tear.Base.Maps.{BTreeMap, get, contains_key, remove, remove_all, get-remove, contains-remove}

module _ {V : Type 0} where
  pub get-remove_all :
      (ks : List ℕ) (j : ℕ) (m : BTreeMap V)
      → get j (remove_all ks m) ≡ (if elem j ks then none else get j m)
  get-remove_all [] j m = refl
  get-remove_all (k ∷ ks) j m = ground (arith, get-remove_all ks j (remove k m), get-remove k j m)

  pub contains-remove_all :
      (ks : List ℕ) (j : ℕ) (m : BTreeMap V)
      → contains_key j (remove_all ks m) ≡ (if elem j ks then false else contains_key j m)
  contains-remove_all [] j m = refl
  contains-remove_all (k ∷ ks) j m =
      ground (arith, contains-remove_all ks j (remove k m), contains-remove k j m)
