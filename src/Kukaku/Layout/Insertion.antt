-- ===== src/Kukaku/Layout/Insertion.antt =====
-- The effect of a split on the panes in display order, with no tree in sight: the
-- independent description that `split_leaf` of kukaku/src/layout.rs is held to.
use tear.Base.{
  ◌≡◌, refl, false, List, [], ◌∷◌, ◌++◌, Eq, ◌=?◌, elem, arith, if◌then◌else◌, Distinct,
}
use tear.Kukaku.Direction.{Direction, toward_b}

-- The pane and the new one, in display order.
abbrev pub pair_in : {PaneId : Type 0} → Direction → PaneId → PaneId → List PaneId
pair_in d pane fresh = if toward_b d then pane ∷ fresh ∷ [] else fresh ∷ pane ∷ []

module _ {PaneId : Type 0} ⦃e : Eq PaneId⦄ where
  -- A sequence with the first occurrence of `target` replaced by the pair.
  abbrev pub insert_beside : Direction → PaneId → PaneId → List PaneId → List PaneId
  insert_beside d target fresh [] = []
  insert_beside d target fresh (x ∷ xs) =
      if x =? target then pair_in d x fresh ++ xs else x ∷ insert_beside d target fresh xs

  pub insert_beside-append :
      (d : Direction) (target fresh : PaneId) (xs ys : List PaneId)
      → insert_beside d target fresh (xs ++ ys) ≡ (
          if elem target xs
          then insert_beside d target fresh xs ++ ys
          else xs ++ insert_beside d target fresh ys)
  insert_beside-append d target fresh [] ys = refl
  insert_beside-append d target fresh (x ∷ xs) ys =
      ground (arith, insert_beside-append d target fresh xs ys)

  insert_beside-absent :
      (d : Direction) (target fresh x : PaneId) (xs : List PaneId)
      → elem x xs ≡ false
      → (fresh =? x) ≡ false
      → elem x (insert_beside d target fresh xs) ≡ false
  insert_beside-absent d target fresh x [] h n = refl
  insert_beside-absent d target fresh x (y ∷ ys) h n =
      ground (arith, insert_beside-absent d target fresh x ys)

  -- A sequence with no repetition keeps none when a value new to it is put in.
  pub insert_beside-Distinct :
      (d : Direction) (target fresh : PaneId) (xs : List PaneId)
      → Distinct xs
      → elem fresh xs ≡ false
      → Distinct (insert_beside d target fresh xs)
  insert_beside-Distinct d target fresh [] h n = tt
  insert_beside-Distinct d target fresh (x ∷ xs) h n = ground (
    arith,
    e.beq_iff x fresh,
    e.beq_iff fresh x,
    insert_beside-absent d target fresh x xs,
    insert_beside-Distinct d target fresh xs h.1,
  )
