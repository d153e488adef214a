-- ===== src/Kukaku/Rects.antt =====
-- kukaku/src/layout.rs: the rectangle of every pane, and moving between neighbours.
pub mod Extent
pub mod Tiling
pub mod Stability
pub mod Nearest
use tear.Base.{
  ℕ, ◌+◌, ◌-◌, Bool, true, false, ◌&&◌, ◌||◌, List, [], ◌∷◌, ◌++◌, Option, none, some, Eq, ◌=?◌,
  if◌then◌else◌, leb, ltb, ◌==◌,
}
use tear.Kukaku.Direction.{Direction, SplitOrientation}
use tear.Kukaku.Geometry.{Rect, right, bottom, span_overlap, add_u16}
use tear.Kukaku.Geometry
use tear.Kukaku.Float.{Float}
use tear.Kukaku.Layout.{LayoutNode, leaf, split}

module _ {Num : Type 0} ⦃f : Float Num⦄ where
  open f use {one_f, of_ℕ, to_u16, sub_f, mul_f, round, clamp}

  -- `split_extent`
  unfoldable pub split_extent : ℕ → Num → ℕ
  split_extent total ratio =
      if leb total 1
      then total
      else to_u16 (clamp (round (mul_f (of_ℕ total) ratio)) one_f (sub_f (of_ℕ total) one_f))

  -- `split_rect`. `bounds.h - a_h` and `bounds.w - a_w` are `u16` subtractions: `split_extent`
  -- never gives more than its total (`split_extent_bounds`), so they cannot underflow.
  unfoldable pub split_rect : Rect → SplitOrientation → Num → Rect × Rect
  unfolding split_extent
  split_rect bounds SplitOrientation.horizontal ratio =
      let a_h = split_extent bounds.h ratio in
      let b_h = bounds.h - a_h in
      (
        Geometry.new bounds.x bounds.y bounds.w a_h,
        Geometry.new bounds.x (add_u16 bounds.y a_h) bounds.w b_h,
      )
  split_rect bounds SplitOrientation.vertical ratio =
      let a_w = split_extent bounds.w ratio in
      let b_w = bounds.w - a_w in
      (
        Geometry.new bounds.x bounds.y a_w bounds.h,
        Geometry.new (add_u16 bounds.x a_w) bounds.y b_w bounds.h,
      )

  module _ {PaneId : Type 0} where
    -- `LayoutNode::lay_out`, which pushes onto `out`
    unfoldable pub lay_out :
        LayoutNode Num PaneId → Rect → List (PaneId × Rect) → List (PaneId × Rect)
    unfolding split_rect
    lay_out (leaf pane) bounds out = out ++ (pane, bounds) ∷ []
    lay_out (split o r a b) bounds out =
        let (ra, rb) = split_rect bounds o r.value in lay_out b rb (lay_out a ra out)

    -- `LayoutNode::compute_rects`
    unfoldable pub compute_rects : LayoutNode Num PaneId → Rect → List (PaneId × Rect)
    unfolding lay_out
    compute_rects t bounds = lay_out t bounds []

-- A candidate's score: on the wanted side, the gap along the axis, the shared edge.
unfoldable pub score : Direction → Rect → Rect → Bool × ℕ × ℕ
score Direction.left me r =
    (leb (right r) me.x, me.x - right r, span_overlap r.y (bottom r) me.y (bottom me))
score Direction.right me r =
    (leb (right me) r.x, r.x - right me, span_overlap r.y (bottom r) me.y (bottom me))
score Direction.above me r =
    (leb (bottom r) me.y, me.y - bottom r, span_overlap r.x (right r) me.x (right me))
score Direction.below me r =
    (leb (bottom me) r.y, r.y - bottom me, span_overlap r.x (right r) me.x (right me))

module _ {PaneId : Type 0} where
  -- `let better = match best { … }`
  unfoldable pub better : Option (PaneId × ℕ × ℕ) → ℕ → ℕ → Bool
  better none gap overlap = true
  better (some (_, best_gap, best_overlap)) gap overlap =
      ltb gap best_gap || (gap == best_gap && ltb best_overlap overlap)

  module _ ⦃e : Eq PaneId⦄ where
    -- `rects.iter().find(|(p, _)| *p == target)`
    unfoldable pub rect_of : PaneId → List (PaneId × Rect) → Option Rect
    rect_of target [] = none
    rect_of target ((p, r) ∷ rest) = if p =? target then some r else rect_of target rest

    -- One turn of the loop of `neighbor`.
    unfoldable pub consider :
        PaneId
        → Direction
        → Rect
        → Option (PaneId × ℕ × ℕ)
        → PaneId × Rect
        → Option (PaneId × ℕ × ℕ)
    consider target direction me best (pane, r) =
        let (on_side, gap, overlap) = score direction me r in
        if pane =? target
        then best
        else if on_side && ltb 0 overlap && better best gap overlap
        then some (pane, gap, overlap)
        else best

    -- The loop of `neighbor`.
    unfoldable pub nearest :
        PaneId
        → Direction
        → Rect
        → Option (PaneId × ℕ × ℕ)
        → List (PaneId × Rect)
        → Option (PaneId × ℕ × ℕ)
    nearest target direction me best [] = best
    nearest target direction me best (entry ∷ rest) =
        nearest target direction me (consider target direction me best entry) rest

    abbrev pub first_of_best : Option (PaneId × ℕ × ℕ) → Option PaneId
    first_of_best none = none
    first_of_best (some (p, _, _)) = some p

    -- `LayoutNode::neighbor`
    unfoldable pub neighbor :
        {Num : Type 0} ⦃f : Float Num⦄
        → LayoutNode Num PaneId
        → PaneId
        → Direction
        → Rect
        → Option PaneId
    neighbor t target direction bounds =
        let rects = compute_rects t bounds in
        elim (rect_of target rects) [
          | none ↦ none
          | some me ↦ first_of_best (nearest target direction me none rects)
        ]
