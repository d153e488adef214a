-- ===== src/Kukaku/Layout.antt =====
-- kukaku/src/layout.rs: the binary tree of panes and the operations that change its shape.
-- A method on `&mut self` returns the new tree with its result.
pub mod Panes
pub mod Insertion
pub mod Splitting
pub mod Removal
pub mod Validation
use tear.Base.{
  ℕ, ◌+◌, Bool, true, false, ◌&&◌, ◌||◌, List, [], ◌∷◌, ◌++◌, Eq, ◌=?◌, elem, if◌then◌else◌,
}
use tear.Kukaku.Direction.{Direction, SplitOrientation, orientation}
use tear.Kukaku.Float.{Float}
use tear.Kukaku.Ratio.{SplitRatio, balanced}
use tear.Kukaku.Ratio

pub data LeafRemoval : Type 0 where
  removed was_root not_found : LeafRemoval

pub data LayoutNode (Num PaneId : Type 0) : Type 0 where
  leaf : PaneId → LayoutNode Num PaneId
  split :
      SplitOrientation
      → SplitRatio Num
      → LayoutNode Num PaneId
      → LayoutNode Num PaneId
      → LayoutNode Num PaneId

pub data LayoutError (Num PaneId : Type 0) : Type 0 where
  duplicate_pane : PaneId → LayoutError Num PaneId
  bad_ratio : Num → LayoutError Num PaneId

-- `Result<(), LayoutError>` with the panes seen so far, which the source grows in place.
pub data Checked (Num PaneId : Type 0) : Type 0 where
  ok : List PaneId → Checked Num PaneId
  err : LayoutError Num PaneId → Checked Num PaneId

module _ {Num PaneId : Type 0} where
  -- `LayoutNode::collect`, which pushes onto `out`
  unfoldable pub collect : LayoutNode Num PaneId → List PaneId → List PaneId
  collect (leaf pane) out = out ++ pane ∷ []
  collect (split o r a b) out = collect b (collect a out)

  -- `LayoutNode::panes`
  unfoldable pub panes : LayoutNode Num PaneId → List PaneId
  unfolding collect
  panes t = collect t []

  -- `LayoutNode::pane_count`
  unfoldable pub pane_count : LayoutNode Num PaneId → ℕ
  pane_count (leaf pane) = 1
  pane_count (split o r a b) = pane_count a + pane_count b

  -- The arm of `remove_leaf` after side `a` has been searched.
  abbrev pub then_b :
      SplitOrientation
      → SplitRatio Num
      → LayoutNode Num PaneId
      → LayoutNode Num PaneId × LeafRemoval
      → LayoutNode Num PaneId × LeafRemoval
      → LayoutNode Num PaneId × LeafRemoval
  then_b o r b (a', not_found) (b', other) = (split o r a' b', other)
  then_b o r b (a', removed) _ = (split o r a' b, removed)
  then_b o r b (a', was_root) _ = (split o r a' b, was_root)

  module _ ⦃e : Eq PaneId⦄ where
    -- `LayoutNode::is_leaf_of`
    unfoldable pub is_leaf_of : LayoutNode Num PaneId → PaneId → Bool
    is_leaf_of (leaf p) pane = p =? pane
    is_leaf_of (split o r a b) pane = false

    -- `LayoutNode::contains_pane`
    unfoldable pub contains_pane : LayoutNode Num PaneId → PaneId → Bool
    contains_pane (leaf p) pane = p =? pane
    contains_pane (split o r a b) pane = contains_pane a pane || contains_pane b pane

    -- `LayoutNode::remove_leaf`
    unfoldable pub remove_leaf :
        LayoutNode Num PaneId → PaneId → LayoutNode Num PaneId × LeafRemoval
    unfolding is_leaf_of
    remove_leaf (leaf pane) target =
        if pane =? target then (leaf pane, was_root) else (leaf pane, not_found)
    remove_leaf (split o r a b) target =
        let deeper = then_b o r b (remove_leaf a target) (remove_leaf b target) in
        if is_leaf_of a target
        then (b, removed)
        else if is_leaf_of b target
        then (a, removed)
        else deeper

  module _ ⦃f : Float Num⦄ where
    -- The two children of a fresh split, and the ratio that side `a` holds.
    unfoldable pub beside : Direction → PaneId → PaneId → Num → LayoutNode Num PaneId
    unfolding Ratio.new
    beside Direction.right pane fresh keep =
        split (orientation Direction.right) (Ratio.new keep) (leaf pane) (leaf fresh)
    beside Direction.below pane fresh keep =
        split (orientation Direction.below) (Ratio.new keep) (leaf pane) (leaf fresh)
    beside Direction.left pane fresh keep =
        split (orientation Direction.left) (Ratio.new (f.sub_f f.one_f keep)) (leaf fresh)
          (leaf pane)
    beside Direction.above pane fresh keep =
        split (orientation Direction.above) (Ratio.new (f.sub_f f.one_f keep)) (leaf fresh)
          (leaf pane)

    -- The arm of `split_leaf` for a split: `||` tries side `b` only if side `a` had no match.
    abbrev pub either_side :
        SplitOrientation
        → SplitRatio Num
        → LayoutNode Num PaneId
        → LayoutNode Num PaneId × Bool
        → LayoutNode Num PaneId × Bool
        → LayoutNode Num PaneId × Bool
    either_side o r b (a', true) _ = (split o r a' b, true)
    either_side o r b (a', false) (b', hit) = (split o r a' b', hit)

    -- `LayoutNode::split_leaf`
    unfoldable pub split_leaf :
        ⦃e : Eq PaneId⦄
        → LayoutNode Num PaneId
        → PaneId
        → PaneId
        → Direction
        → Num
        → LayoutNode Num PaneId × Bool
    unfolding beside
    split_leaf (leaf pane) target new_pane direction origin_ratio =
        if pane =? target
        then (beside direction pane new_pane (Ratio.new origin_ratio).value, true)
        else (leaf pane, false)
    split_leaf (split o r a b) target new_pane direction origin_ratio =
        either_side o r b (split_leaf a target new_pane direction origin_ratio)
          (split_leaf b target new_pane direction origin_ratio)

    -- The `?` of `validate_into` between the two sides.
    abbrev pub and_then :
        Checked Num PaneId → (List PaneId → Checked Num PaneId) → Checked Num PaneId
    and_then (ok seen) k = k seen
    and_then (err x) k = err x

    -- `LayoutNode::validate_into`
    unfoldable pub validate_into :
        ⦃e : Eq PaneId⦄ → LayoutNode Num PaneId → List PaneId → Checked Num PaneId
    validate_into (leaf pane) seen =
        if elem pane seen then err (duplicate_pane pane) else ok (seen ++ pane ∷ [])
    validate_into (split o r a b) seen =
        let sides = and_then (validate_into a seen) (validate_into b) in
        if f.lt_f f.zero_f r.value && f.lt_f r.value f.one_f then sides else err (bad_ratio r.value)

    -- `LayoutNode::validate`
    unfoldable pub validate : ⦃e : Eq PaneId⦄ → LayoutNode Num PaneId → Checked Num PaneId
    unfolding validate_into
    validate t = validate_into t []
