-- ===== src/Kukaku/Resize.antt =====
-- kukaku/src/layout.rs: moving the divider that governs a pane.
pub mod Governing
pub mod Effect
use tear.Base.{
  Bool, true, false, not, ◌&&◌, ◌||◌, List, [], ◌∷◌, ◌++◌, Option, none, some, Eq, if◌then◌else◌,
}
use tear.Kukaku.Direction.{Direction, SplitOrientation, orientation, same_orientation, toward_b}
use tear.Kukaku.Float.{Float}
use tear.Kukaku.Ratio.{SplitRatio}
use tear.Kukaku.Ratio
use tear.Kukaku.Layout.{LayoutNode, leaf, split, contains_pane}

-- `ratio.get() + sign * delta_frac`
abbrev pub moved_ratio : {Num : Type 0} ⦃f : Float Num⦄ → Bool → SplitRatio Num → Num → Num
moved_ratio ⦃f⦄ toward r delta_frac =
    f.add_f r.value (f.mul_f (if toward then f.one_f else f.neg_one_f) delta_frac)

module _ {Num PaneId : Type 0} where
  module _ ⦃e : Eq PaneId⦄ where
    -- `LayoutNode::walk_governing`. The source pushes and pops one `path`; here each call has its
    -- own, and the new `best` is the result.
    unfoldable pub walk_governing :
        LayoutNode Num PaneId
        → PaneId
        → SplitOrientation
        → Bool
        → List Bool
        → Option (List Bool)
        → Option (List Bool)
    walk_governing (leaf p) target want need_side_a path best = best
    walk_governing (split o r a b) target want need_side_a path best =
        let in_a = contains_pane a target in
        let in_b = contains_pane b target in
        let best' =
          if same_orientation o want && (in_a && need_side_a || in_b && not need_side_a)
          then some path
          else best in
        let into_a = walk_governing a target want need_side_a (path ++ true ∷ []) best' in
        let into_b = walk_governing b target want need_side_a (path ++ false ∷ []) best' in
        if in_a then into_a else if in_b then into_b else best'

    -- `LayoutNode::governing_split_path`
    unfoldable pub governing_split_path :
        LayoutNode Num PaneId → PaneId → SplitOrientation → Bool → Option (List Bool)
    governing_split_path t target want need_side_a =
        walk_governing t target want need_side_a [] none

  -- `LayoutNode::split_at_path`: `true` steps into side `a`.
  unfoldable pub split_at_path : LayoutNode Num PaneId → List Bool → Option (LayoutNode Num PaneId)
  split_at_path t [] = some t
  split_at_path (leaf p) (into_a ∷ path) = none
  split_at_path (split o r a b) (true ∷ path) = split_at_path a path
  split_at_path (split o r a b) (false ∷ path) = split_at_path b path

  -- The write through the `&mut ratio` that `split_at_path` hands out.
  unfoldable pub write_ratio :
      LayoutNode Num PaneId → List Bool → SplitRatio Num → LayoutNode Num PaneId
  write_ratio (leaf p) path ratio = leaf p
  write_ratio (split o r a b) [] ratio = split o ratio a b
  write_ratio (split o r a b) (true ∷ path) ratio = split o r (write_ratio a path ratio) b
  write_ratio (split o r a b) (false ∷ path) ratio = split o r a (write_ratio b path ratio)

  module _ ⦃f : Float Num⦄ where
    -- The end of `resize_leaf`, at the node that the path leads to.
    unfoldable pub move_divider :
        LayoutNode Num PaneId
        → List Bool
        → Bool
        → Num
        → Option (LayoutNode Num PaneId)
        → LayoutNode Num PaneId × Bool
    move_divider t path toward delta_frac none = (t, false)
    move_divider t path toward delta_frac (some (leaf p)) = (t, false)
    move_divider t path toward delta_frac (some (split o r a b)) =
        let next = moved_ratio toward r delta_frac in
        if f.is_finite next then (write_ratio t path (Ratio.new next), true) else (t, true)

    -- `LayoutNode::resize_leaf`
    unfoldable pub resize_leaf :
        ⦃e : Eq PaneId⦄
        → LayoutNode Num PaneId
        → PaneId
        → Direction
        → Num
        → LayoutNode Num PaneId × Bool
    resize_leaf t target direction delta_frac =
        elim (governing_split_path t target (orientation direction) (toward_b direction)) [
          | none ↦ (t, false)
          | some path ↦ move_divider t path (toward_b direction) delta_frac (split_at_path t path)
        ]
