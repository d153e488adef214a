-- ===== src/Kukaku/Rects/Stability.antt =====
-- A split leaves every other pane where it was: `split_leaf` against `compute_rects`, both of
-- kukaku/src/layout.rs.
use tear.Base.{◌≡◌, refl, false, List, [], ◌∷◌, ◌++◌, Option, none, some, Eq, ◌=?◌, arith}
use tear.Kukaku.Direction.{Direction}
use tear.Kukaku.Geometry.{Rect}
use tear.Kukaku.Float.{Float}
use tear.Kukaku.Ratio
use tear.Kukaku.Layout.{LayoutNode, leaf, split, split_leaf, beside}
use tear.Kukaku.Rects.{compute_rects, split_rect, rect_of}
use tear.Kukaku.Rects.Tiling.{rects, compute_rects-rects}

-- The first of two results.
abbrev or_else : Option Rect → Option Rect → Option Rect
or_else none second = second
or_else (some r) second = some r

module _ {PaneId : Type 0} ⦃e : Eq PaneId⦄ where
  rect_of-append :
      (p : PaneId) (xs ys : List (PaneId × Rect))
      → rect_of p (xs ++ ys) ≡ or_else (rect_of p xs) (rect_of p ys)
  unfolding rect_of
  rect_of-append p [] ys = refl
  rect_of-append p ((q, r) ∷ xs) ys = ground (arith, rect_of-append p xs ys)

module _ {Num PaneId : Type 0} ⦃e : Eq PaneId⦄ ⦃f : Float Num⦄ where
  beside_elsewhere :
      (p q fresh : PaneId) (d : Direction) (keep : Num) (bounds : Rect)
      → (q =? p) ≡ false
      → (fresh =? p) ≡ false
      → rect_of p (rects (beside d q fresh keep) bounds) ≡ none
  unfolding rects beside rect_of
  beside_elsewhere p q fresh Direction.right keep bounds h n = ground arith
  beside_elsewhere p q fresh Direction.below keep bounds h n = ground arith
  beside_elsewhere p q fresh Direction.left keep bounds h n = ground arith
  beside_elsewhere p q fresh Direction.above keep bounds h n = ground arith

  stays :
      (t : LayoutNode Num PaneId) (target fresh p : PaneId) (d : Direction) (r : Num)
      (bounds : Rect)
      → (target =? p) ≡ false
      → (fresh =? p) ≡ false
      → rect_of p (rects (split_leaf t target fresh d r).0 bounds) ≡ rect_of p (rects t bounds)
  unfolding split_leaf rects rect_of
  stays (leaf q) target fresh p d r bounds h n =
      ground (arith, e.beq_iff q target, beside_elsewhere p q fresh d (Ratio.new r).value bounds)
  stays (split o q a b) target fresh p d r bounds h n =
      let (ra, rb) = split_rect bounds o q.value in
      ground (
        arith,
        stays a target fresh p d r ra,
        stays b target fresh p d r rb,
        rect_of-append p (rects a ra) (rects b rb),
        rect_of-append p (rects (split_leaf a target fresh d r).0 ra) (rects b rb),
        rect_of-append p (rects (split_leaf a target fresh d r).0 ra)
            (rects (split_leaf b target fresh d r).0 rb),
      )

  -- After a split, every pane but the target and the new one has the rectangle that it had before.
  pub split_leaf_stable :
      (t : LayoutNode Num PaneId) (target fresh p : PaneId) (d : Direction) (r : Num)
      (bounds : Rect)
      → (target =? p) ≡ false
      → (fresh =? p) ≡ false
      → rect_of p (compute_rects (split_leaf t target fresh d r).0 bounds)
        ≡ rect_of p (compute_rects t bounds)
  split_leaf_stable t target fresh p d r bounds h n =
      rw (compute_rects-rects, compute_rects-rects) (stays t target fresh p d r bounds h n)
