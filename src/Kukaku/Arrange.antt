-- ===== src/Kukaku/Arrange.antt =====
-- kukaku/src/layout.rs: the named arrangements of a sequence of panes.
pub mod Presets
use tear.Base.{
  ℕ, zero, suc, ◌+◌, ◌/◌, ◌%◌, Bool, true, false, List, [], ◌∷◌, map, Option, none, some,
  if◌then◌else◌, leb, ltb, ◌==◌, length, take, drop,
}
use tear.Kukaku.Direction.{SplitOrientation}
use tear.Kukaku.Float.{Float}
use tear.Kukaku.Ratio.{balanced}
use tear.Kukaku.Ratio
use tear.Kukaku.Layout.{LayoutNode, leaf, split}

pub data LayoutKind : Type 0 where
  even_horizontal even_vertical main_horizontal main_vertical tiled custom : LayoutKind

infixl 5 ◌>>=◌
abbrev pub ◌>>=◌ : {A B : Type 0} → Option A → (A → Option B) → Option B
none >>= k = none
some a >>= k = k a

-- `leaves`
abbrev pub leaves : {Num PaneId : Type 0} → List PaneId → List (LayoutNode Num PaneId)
leaves = map leaf

-- `&panes[i..i + cnt]`, which panics (here: `none`) past the end.
abbrev pub slice : {PaneId : Type 0} → List PaneId → ℕ → ℕ → Option (List PaneId)
slice panes i cnt = if leb (i + cnt) (length panes) then some (take cnt (drop i panes)) else none

-- `usize::from(r < extra)`
abbrev pub extra_cell : ℕ → ℕ → ℕ
extra_cell r extra = if ltb r extra then 1 else 0

module _ {Num PaneId : Type 0} ⦃f : Float Num⦄ where
  -- `even_chain`
  unfoldable pub even_chain :
      SplitOrientation → List (LayoutNode Num PaneId) → Option (LayoutNode Num PaneId)
  even_chain o [] = none
  even_chain o (single ∷ []) = some single
  even_chain o (first ∷ second ∷ rest) =
      let n = f.of_ℕ (length (first ∷ second ∷ rest)) in
      do
        rest_tree ← even_chain o (second ∷ rest)
        some (split o (Ratio.new (f.div_f f.one_f n)) first rest_tree)

  -- The loop of `tiled` over the rows from `r`, of which `left` are left.
  unfoldable pub tiled_rows :
      ℕ → ℕ → ℕ → ℕ → ℕ → List PaneId → Option (List (LayoutNode Num PaneId))
  tiled_rows zero r i per extra panes = some []
  tiled_rows (suc left) r i per extra panes =
      let cnt = per + extra_cell r extra in
      do
        cells ← slice panes i cnt
        row ← even_chain SplitOrientation.vertical (leaves cells)
        row_trees ← tiled_rows left (r + 1) (i + cnt) per extra panes
        some (row ∷ row_trees)

  -- `tiled`
  unfoldable pub tiled_tree : List PaneId → Option (LayoutNode Num PaneId)
  tiled_tree panes =
      let n = length panes in
      let rows = f.ceil_sqrt n in
      let grid = tiled_rows rows 0 0 (n / rows) (n % rows) panes in
      if n == 0 then none else (grid >>= even_chain SplitOrientation.horizontal)

  -- `LayoutNode::from_kind`
  unfoldable pub from_kind : LayoutKind → List PaneId → Option (LayoutNode Num PaneId)
  from_kind kind [] = none
  from_kind kind (only ∷ []) = some (leaf only)
  from_kind even_horizontal (main ∷ second ∷ rest) =
      even_chain SplitOrientation.vertical (leaves (main ∷ second ∷ rest))
  from_kind even_vertical (main ∷ second ∷ rest) =
      even_chain SplitOrientation.horizontal (leaves (main ∷ second ∷ rest))
  from_kind main_horizontal (main ∷ second ∷ rest) = do
    bottom ← even_chain SplitOrientation.vertical (leaves (second ∷ rest))
    some (split SplitOrientation.horizontal balanced (leaf main) bottom)
  from_kind main_vertical (main ∷ second ∷ rest) = do
    right ← even_chain SplitOrientation.horizontal (leaves (second ∷ rest))
    some (split SplitOrientation.vertical balanced (leaf main) right)
  from_kind tiled (main ∷ second ∷ rest) = tiled_tree (main ∷ second ∷ rest)
  from_kind custom (main ∷ second ∷ rest) = none
