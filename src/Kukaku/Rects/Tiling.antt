-- ===== src/Kukaku/Rects/Tiling.antt =====
-- `compute_rects` of kukaku/src/layout.rs tiles its bounds: no gap and no overlap.
use mathlib.Core.List.{append_assoc, map-append}
use tear.Base.{
  ℕ, ◌+◌, ◌-◌, ◌≤◌, ◌<◌, ◌≡◌, refl, Bool, true, false, List, [], ◌∷◌, ◌++◌, map, arith, count_if,
  count_if-append, All, All-append, All-imp,
}
use tear.Kukaku.Direction.{SplitOrientation}
use tear.Kukaku.Geometry.{Rect, Fits, right, bottom, contains, u16_mod, add_u16}
use tear.Kukaku.Geometry
use tear.Kukaku.Float.{Float, IsIeee}
use tear.Kukaku.Ratio.{SplitRatio, IsRefined}
use tear.Kukaku.Layout.{LayoutNode, leaf, split, panes}
use tear.Kukaku.Layout.Panes.{ids, panes-ids}
use tear.Kukaku.Layout.Splitting.{AllRefined}
use tear.Kukaku.Rects.{split_rect, lay_out, compute_rects}
use tear.Kukaku.Rects.Extent.{split_extent-le}

-- `r` lies within `outer`.
pub record Within (outer r : Rect) : Type 0 where
  pub left_in : outer.x ≤ r.x
  pub right_in : right r ≤ right outer
  pub top_in : outer.y ≤ r.y
  pub bottom_in : bottom r ≤ bottom outer

Within-trans : {a b c : Rect} → Within a b → Within b c → Within a c
Within-trans h k = omega arith

Within-Fits : {a b : Rect} → Within a b → Fits a → Fits b
Within-Fits h k = omega arith

-- One cell, counted.
abbrev pub one_if : Bool → ℕ
one_if true = 1
one_if false = 0

tally_one : {A : Type 0} (p : A → Bool) (a : A) → count_if p (a ∷ []) ≡ one_if (p a)
tally_one p a = ground arith

-- Two rectangles lie within the bounds, and every cell of the bounds is in exactly one of them.
pub record Tiles (bounds a b : Rect) : Type 0 where
  pub a_in : Within bounds a
  pub b_in : Within bounds b
  pub once :
      (px py : ℕ)
      → one_if (contains a px py) + one_if (contains b px py) ≡ one_if (contains bounds px py)

below_cut : (x k w : ℕ) → x + w < u16_mod → k ≤ w → add_u16 x k ≡ x + k
below_cut x k w fits h = omega arith

cut_rows :
    (r : Rect) (k : ℕ)
    → Fits r
    → k ≤ r.h
    → Tiles r (Geometry.new r.x r.y r.w k) (Geometry.new r.x (add_u16 r.y k) r.w (r.h - k))
cut_rows r k fits h = record {
  a_in = omega arith;
  b_in = rw (below_cut r.y k r.h fits.bottom_fits h) (omega arith);
  once = λ px py. rw (below_cut r.y k r.h fits.bottom_fits h) (ground arith);
}

cut_columns :
    (r : Rect) (k : ℕ)
    → Fits r
    → k ≤ r.w
    → Tiles r (Geometry.new r.x r.y k r.h) (Geometry.new (add_u16 r.x k) r.y (r.w - k) r.h)
cut_columns r k fits h = record {
  a_in = omega arith;
  b_in = rw (below_cut r.x k r.w fits.right_fits h) (omega arith);
  once = λ px py. rw (below_cut r.x k r.w fits.right_fits h) (ground arith);
}

module _ {Num PaneId : Type 0} ⦃f : Float Num⦄ where
  -- The rectangles by plain recursion.
  unfoldable pub rects : LayoutNode Num PaneId → Rect → List (PaneId × Rect)
  rects (leaf p) bounds = (p, bounds) ∷ []
  rects (split o r a b) bounds =
      rects a (split_rect bounds o r.value).0 ++ rects b (split_rect bounds o r.value).1

  lay_out-rects :
      (t : LayoutNode Num PaneId) (bounds : Rect) (out : List (PaneId × Rect))
      → lay_out t bounds out ≡ out ++ rects t bounds
  unfolding lay_out rects
  lay_out-rects (leaf p) bounds out = refl
  lay_out-rects (split o r a b) bounds out = simp (lay_out-rects a, lay_out-rects b, append_assoc)

  pub compute_rects-rects :
      (t : LayoutNode Num PaneId) (bounds : Rect) → compute_rects t bounds ≡ rects t bounds
  unfolding compute_rects
  compute_rects-rects t bounds = lay_out-rects t bounds []

  rects-ids :
      (t : LayoutNode Num PaneId) (bounds : Rect)
      → map (λ (e : PaneId × Rect). e.0) (rects t bounds) ≡ ids t
  unfolding rects
  rects-ids (leaf p) bounds = refl
  rects-ids (split o r a b) bounds = simp (map-append, rects-ids a, rects-ids b)

module _ {Num : Type 0} ⦃f : Float Num⦄ (ieee : IsIeee f) where
  -- The two children of a split tile its bounds.
  pub split_rect-Tiles :
      (bounds : Rect) (o : SplitOrientation) (r : SplitRatio Num)
      → Fits bounds
      → IsRefined r
      → Tiles bounds (split_rect bounds o r.value).0 (split_rect bounds o r.value).1
  unfolding split_rect
  split_rect-Tiles bounds SplitOrientation.horizontal r fits h =
      cut_rows bounds _ fits (split_extent-le ieee r bounds.h h (omega arith))
  split_rect-Tiles bounds SplitOrientation.vertical r fits h =
      cut_columns bounds _ fits (split_extent-le ieee r bounds.w h (omega arith))

  module _ {PaneId : Type 0} where
    rects-Within :
        (t : LayoutNode Num PaneId) (bounds : Rect)
        → AllRefined t
        → Fits bounds
        → All (λ (e : PaneId × Rect). Within bounds e.1) (rects t bounds)
    unfolding rects
    rects-Within (leaf p) bounds h fits = (omega arith, tt)
    rects-Within (split o r a b) bounds h fits =
        let (ra, rb) = split_rect bounds o r.value in
        let tiles = split_rect-Tiles bounds o r fits h.0 in
        All-append (λ (e : PaneId × Rect). Within bounds e.1) (rects a ra) (rects b rb)
          (All-imp (λ e. Within-trans tiles.a_in) (rects a ra)
            (rects-Within a ra h.1 (Within-Fits tiles.a_in fits)))
          (All-imp (λ e. Within-trans tiles.b_in) (rects b rb)
            (rects-Within b rb h.2 (Within-Fits tiles.b_in fits)))

    rects_cover :
        (t : LayoutNode Num PaneId) (bounds : Rect) (px py : ℕ)
        → AllRefined t
        → Fits bounds
        → count_if (λ (e : PaneId × Rect). contains e.1 px py) (rects t bounds)
          ≡ one_if (contains bounds px py)
    unfolding rects
    rects_cover (leaf p) bounds px py h fits =
        rw (tally_one (λ (e : PaneId × Rect). contains e.1 px py) (p, bounds))
    rects_cover (split o r a b) bounds px py h fits =
        let (ra, rb) = split_rect bounds o r.value in
        let tiles = split_rect-Tiles bounds o r fits h.0 in
        omega (
          arith,
          count_if-append (λ (e : PaneId × Rect). contains e.1 px py) (rects a ra) (rects b rb),
          rects_cover a ra px py h.1 (Within-Fits tiles.a_in fits),
          rects_cover b rb px py h.2 (Within-Fits tiles.b_in fits),
          tiles.once px py,
        )

    -- `compute_rects` gives one rectangle to each pane, in display order. If every ratio is refined
    -- and the edges of the bounds fit a `u16`, then every rectangle lies within the bounds, every
    -- cell of the bounds is in exactly one rectangle, and no other cell is in any.
    pub compute_rects_tile :
        (t : LayoutNode Num PaneId) (bounds : Rect)
        → AllRefined t
        → Fits bounds
        → (map (λ (e : PaneId × Rect). e.0) (compute_rects t bounds) ≡ panes t)
          × All (λ (e : PaneId × Rect). Within bounds e.1) (compute_rects t bounds)
          × ((px py : ℕ)
              → count_if (λ (e : PaneId × Rect). contains e.1 px py) (compute_rects t bounds)
                ≡ one_if (contains bounds px py))
    compute_rects_tile t bounds h fits =
        rw (compute_rects-rects t bounds, panes-ids t)
          (
            rects-ids t bounds,
            rects-Within t bounds h fits,
            λ px py. rects_cover t bounds px py h fits,
          )
