-- ===== src/Kukaku/Tests.antt =====
-- The layout algebra of kukaku/src at concrete inputs: runs of the code, and the theorems at
-- inputs that meet their hypotheses. Numbers are the fixed-point ones, panes are numbers.
use tear.Base.{
  ℕ, ◌≡◌, ◌↔◌, refl, true, false, List, [], ◌∷◌, map, some, arith, Distinct, All, count_if,
  if◌then◌else◌, without, nat_eq,
}
use tear.Kukaku.Direction.{Direction, SplitOrientation}
use tear.Kukaku.Geometry.{Rect, sized, contains}
use tear.Kukaku.Fixed.{Fixed, num, fixed_float, fixed-IsIeee, root}
use tear.Kukaku.Ratio
use tear.Kukaku.Ratio.{IsRefined, balanced}
use tear.Kukaku.Layout.{
  LayoutNode, leaf, split, ok, removed, panes, contains_pane, is_leaf_of, split_leaf, remove_leaf,
  validate,
}
use tear.Kukaku.Layout.Panes
use tear.Kukaku.Layout.Insertion.{insert_beside}
use tear.Kukaku.Layout.Splitting.{split_leaf_places}
use tear.Kukaku.Layout.Removal.{outcome, remove_leaf_outcomes, remove_leaf-split_leaf}
use tear.Kukaku.Layout.Validation.{AllOpen, IsWellFormed, validate_decides, operations-IsWellFormed}
use tear.Kukaku.Rects.{lay_out, split_rect, split_extent, compute_rects, rect_of, neighbor}
use tear.Kukaku.Rects.Tiling.{Within, one_if, compute_rects_tile}
use tear.Kukaku.Rects.Stability.{split_leaf_stable}
use tear.Kukaku.Rects.Nearest.{Answers, neighbor-Answers}
use tear.Kukaku.Resize.{governing_split_path, resize_leaf}
use tear.Kukaku.Resize.Governing.{IsDeepest, governing_split_path-IsDeepest}
use tear.Kukaku.Resize.Effect.{Bounds, next_ratio, Resizes, resize_leaf_moves}
use tear.Kukaku.Arrange.{tiled, from_kind, tiled_tree, tiled_rows, even_chain}
use tear.Kukaku.Arrange.Presets.{Preset, from_kind-Preset}

-- Pane 1 on the left; 2 above 3 on the right.
abbrev three : LayoutNode Fixed ℕ
three =
    split SplitOrientation.vertical balanced (leaf 1)
      (split SplitOrientation.horizontal balanced (leaf 2) (leaf 3))

abbrev screen : Rect
screen = sized 80 24

three-IsWellFormed : IsWellFormed three
three-IsWellFormed = record {
  distinct = rw Panes.panes-ids (refl, (refl, (refl, tt)));
  refined = (balanced_ok, tt, (balanced_ok, tt, tt));
}
  where
    balanced_ok : IsRefined {Num = Fixed} balanced
    balanced_ok = record { above = refl; under = refl }

-- A quarter of the screen and a half of it.
runs_rects :
    compute_rects three screen
    ≡ (1, record { x = 0; y = 0; w = 40; h = 24 })
      ∷ (2, record { x = 40; y = 0; w = 40; h = 12 })
      ∷ (3, record { x = 40; y = 12; w = 40; h = 12 })
      ∷ []
unfolding compute_rects lay_out split_rect split_extent
runs_rects = refl

runs_tiled :
    from_kind {Num = Fixed} {PaneId = ℕ} tiled (1 ∷ 2 ∷ 3 ∷ [])
    ≡ some (
        split SplitOrientation.horizontal balanced
          (split SplitOrientation.vertical balanced (leaf 1) (leaf 2))
          (leaf 3))
unfolding from_kind tiled_tree tiled_rows even_chain root Ratio.new
runs_tiled = refl

split_leaf_places_example :
    ((split_leaf three 2 4 Direction.left (num 1000700)).1 ≡ contains_pane three 2)
    × (panes (split_leaf three 2 4 Direction.left (num 1000700)).0
        ≡ insert_beside Direction.left 2 4 (panes three))
    × (contains_pane three 2 ≡ false
        → (split_leaf three 2 4 Direction.left (num 1000700)).0 ≡ three)
split_leaf_places_example = split_leaf_places three 2 4 Direction.left (num 1000700)

remove_leaf_outcomes_example :
    ((remove_leaf three 2).1 ≡ outcome (is_leaf_of three 2) (contains_pane three 2))
    × (panes (remove_leaf three 2).0
        ≡ (if is_leaf_of three 2 then panes three else without 2 (panes three)))
remove_leaf_outcomes_example = remove_leaf_outcomes three 2 three-IsWellFormed.distinct

remove_leaf-split_leaf_example :
    remove_leaf (split_leaf three 2 4 Direction.below (num 1000300)).0 4 ≡ (three, removed)
unfolding contains_pane
remove_leaf-split_leaf_example =
    remove_leaf-split_leaf three 2 4 Direction.below (num 1000300) refl refl

validate_decides_example :
    ((seen : List ℕ) × (validate three ≡ ok seen)) ↔ (Distinct (panes three) × AllOpen three)
validate_decides_example = validate_decides three

operations-IsWellFormed_example :
    ((seen : List ℕ) × (validate three ≡ ok seen))
    × ((target fresh : ℕ) (d : Direction) (r : Fixed)
        → contains_pane three fresh ≡ false
        → IsWellFormed (split_leaf three target fresh d r).0)
    × ((target : ℕ) → IsWellFormed (remove_leaf three target).0)
operations-IsWellFormed_example = operations-IsWellFormed fixed-IsIeee three three-IsWellFormed

compute_rects_tile_example :
    (map (λ (e : ℕ × Rect). e.0) (compute_rects three screen) ≡ panes three)
    × All (λ (e : ℕ × Rect). Within screen e.1) (compute_rects three screen)
    × ((px py : ℕ)
        → count_if (λ (e : ℕ × Rect). contains e.1 px py) (compute_rects three screen)
          ≡ one_if (contains screen px py))
compute_rects_tile_example =
    compute_rects_tile fixed-IsIeee three screen three-IsWellFormed.refined (omega arith)

split_leaf_stable_example :
    rect_of 3 (compute_rects (split_leaf three 1 4 Direction.right (num 1000500)).0 screen)
    ≡ rect_of 3 (compute_rects three screen)
split_leaf_stable_example =
    split_leaf_stable three 1 4 3 Direction.right (num 1000500) screen refl refl

neighbor-Answers_example :
    Answers 1 Direction.right
      (compute_rects three screen)
      (rect_of 1 (compute_rects three screen))
      (neighbor three 1 Direction.right screen)
neighbor-Answers_example = neighbor-Answers three 1 Direction.right screen

governing_split_path-IsDeepest_example :
    IsDeepest 2 SplitOrientation.horizontal true three
      (governing_split_path three 2 SplitOrientation.horizontal true)
governing_split_path-IsDeepest_example =
    governing_split_path-IsDeepest 2 SplitOrientation.horizontal true three
      three-IsWellFormed.distinct

resize_leaf_moves_example :
    Resizes three
      (resize_leaf three 2 Direction.below (num 1000100))
      (Bounds Direction.below 2 three)
      (next_ratio Direction.below (num 1000100))
resize_leaf_moves_example =
    resize_leaf_moves fixed-IsIeee three 2 (num 1000100) three-IsWellFormed.distinct Direction.below

from_kind-Preset_example :
    Preset {PaneId = ℕ} fixed-IsIeee tiled (1 ∷ 2 ∷ 3 ∷ []) (from_kind tiled (1 ∷ 2 ∷ 3 ∷ []))
from_kind-Preset_example = from_kind-Preset fixed-IsIeee tiled (1 ∷ 2 ∷ 3 ∷ []) (omega arith)
