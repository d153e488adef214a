-- ===== src/Kukaku/Layout/Splitting.antt =====
-- `split_leaf` of kukaku/src/layout.rs: where the new pane lands, and what stays.
use tear.Base.{◌≡◌, refl, Bool, false, ap, Eq, elem, elem-append, arith}
use tear.Kukaku.Direction.{Direction}
use tear.Kukaku.Float.{Float, IsIeee}
use tear.Kukaku.Ratio.{SplitRatio, IsRefined, new-IsRefined}
use tear.Kukaku.Ratio
use tear.Kukaku.Layout.{LayoutNode, leaf, split, panes, contains_pane, split_leaf, beside}
use tear.Kukaku.Layout.Insertion.{pair_in, insert_beside, insert_beside-append}
use tear.Kukaku.Layout.Panes.{ids, panes-ids, elem-ids}

-- Every ratio of the tree is one that `SplitRatio::new` can give.
abbrev pub AllRefined : {Num PaneId : Type 0} ⦃f : Float Num⦄ → LayoutNode Num PaneId → Type 0
AllRefined (leaf p) = Unit
AllRefined (split o r a b) = IsRefined r × AllRefined a × AllRefined b

module _ {Num PaneId : Type 0} ⦃f : Float Num⦄ where
  ids-beside :
      (d : Direction) (p fresh : PaneId) (keep : Num)
      → ids (beside d p fresh keep) ≡ pair_in d p fresh
  unfolding beside
  ids-beside Direction.right p fresh keep = refl
  ids-beside Direction.below p fresh keep = refl
  ids-beside Direction.left p fresh keep = refl
  ids-beside Direction.above p fresh keep = refl

  module _ (ieee : IsIeee f) where
    beside-AllRefined :
        (d : Direction) (p fresh : PaneId) (keep : Num) → AllRefined (beside d p fresh keep)
    unfolding beside
    beside-AllRefined Direction.right p fresh keep = (new-IsRefined ieee keep, tt, tt)
    beside-AllRefined Direction.below p fresh keep = (new-IsRefined ieee keep, tt, tt)
    beside-AllRefined Direction.left p fresh keep = (new-IsRefined ieee _, tt, tt)
    beside-AllRefined Direction.above p fresh keep = (new-IsRefined ieee _, tt, tt)

module _ {Num PaneId : Type 0} ⦃e : Eq PaneId⦄ ⦃f : Float Num⦄ where
  pub split_leaf-hit :
      (t : LayoutNode Num PaneId) (target fresh : PaneId) (d : Direction) (r : Num)
      → (split_leaf t target fresh d r).1 ≡ elem target (ids t)
  unfolding split_leaf
  split_leaf-hit (leaf p) target fresh d r = ground arith
  split_leaf-hit (split o q a b) target fresh d r = ground (
    arith,
    split_leaf-hit a target fresh d r,
    split_leaf-hit b target fresh d r,
    elem-append target (ids a) (ids b),
  )

  pub split_leaf-miss :
      (t : LayoutNode Num PaneId) (target fresh : PaneId) (d : Direction) (r : Num)
      → elem target (ids t) ≡ false
      → split_leaf t target fresh d r ≡ (t, false)
  unfolding split_leaf
  split_leaf-miss (leaf p) target fresh d r h = ground arith
  split_leaf-miss (split o q a b) target fresh d r h = ground (
    arith,
    split_leaf-miss a target fresh d r,
    split_leaf-miss b target fresh d r,
    elem-append target (ids a) (ids b),
  )

  pub split_leaf-ids :
      (t : LayoutNode Num PaneId) (target fresh : PaneId) (d : Direction) (r : Num)
      → ids (split_leaf t target fresh d r).0 ≡ insert_beside d target fresh (ids t)
  unfolding split_leaf
  split_leaf-ids (leaf p) target fresh d r =
      ground (arith, ids-beside d p fresh (Ratio.new r).value)
  split_leaf-ids (split o q a b) target fresh d r = ground (
    arith,
    split_leaf-ids a target fresh d r,
    split_leaf-ids b target fresh d r,
    split_leaf-hit a target fresh d r,
    split_leaf-miss a target fresh d r,
    insert_beside-append d target fresh (ids a) (ids b),
  )

  -- The result of `split_leaf` says whether the tree holds the target. If it does, the new pane
  -- stands beside the first occurrence of the target, after it for right and below and before it
  -- for left and above, and the other panes keep their order; if not, the tree is unchanged.
  pub split_leaf_places :
      (t : LayoutNode Num PaneId) (target fresh : PaneId) (d : Direction) (r : Num)
      → ((split_leaf t target fresh d r).1 ≡ contains_pane t target)
        × (panes (split_leaf t target fresh d r).0 ≡ insert_beside d target fresh (panes t))
        × (contains_pane t target ≡ false → (split_leaf t target fresh d r).0 ≡ t)
  split_leaf_places t target fresh d r =
      rw (panes-ids, panes-ids, elem-ids t target)
        (
          split_leaf-hit t target fresh d r,
          split_leaf-ids t target fresh d r,
          λ h.
              ap (λ (m : LayoutNode Num PaneId × Bool). m.0) (split_leaf-miss t target fresh d r h),
        )

  -- A split keeps every ratio refined.
  pub split_leaf-AllRefined :
      IsIeee f
      → (t : LayoutNode Num PaneId) (target fresh : PaneId) (d : Direction) (r : Num) → AllRefined t
      → AllRefined (split_leaf t target fresh d r).0
  unfolding split_leaf
  split_leaf-AllRefined ieee (leaf p) target fresh d r h =
      ground (arith, beside-AllRefined ieee d p fresh (Ratio.new r).value)
  split_leaf-AllRefined ieee (split o q a b) target fresh d r h = ground (
    arith,
    split_leaf-AllRefined ieee a target fresh d r h.1,
    split_leaf-AllRefined ieee b target fresh d r h.2,
  )
