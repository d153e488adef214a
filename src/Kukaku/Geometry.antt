-- ===== src/Kukaku/Geometry.antt =====
-- kukaku/src/geometry.rs: rectangles in a grid of cells. A coordinate is a `u16`, held as a
-- plain number; sums of two of them are widened to `u32` by the source and cannot wrap there.
use tear.Base.{ℕ, ◌+◌, ◌-◌, ◌*◌, ◌%◌, ◌<◌, Bool, ◌&&◌, ◌||◌, leb, ltb, ◌==◌, min, max}

pub record Rect : Type 0 where
  pub x : ℕ
  pub y : ℕ
  pub w : ℕ
  pub h : ℕ

abbrev pub u16_mod : ℕ
u16_mod = 65536

-- `u16` addition, which wraps.
abbrev pub add_u16 : ℕ → ℕ → ℕ
add_u16 a b = (a + b) % u16_mod

-- `Rect::new`
abbrev pub new : ℕ → ℕ → ℕ → ℕ → Rect
new x y w h = record { x = x; y = y; w = w; h = h }

-- `Rect::sized`
abbrev pub sized : ℕ → ℕ → Rect
sized w h = record { x = 0; y = 0; w = w; h = h }

-- `Rect::right` and `Rect::bottom`, one past the edge.
abbrev pub right : Rect → ℕ
right r = r.x + r.w

abbrev pub bottom : Rect → ℕ
bottom r = r.y + r.h

-- `Rect::area`, a `u32`: 65535 * 65535 fits.
abbrev pub area : Rect → ℕ
area r = r.w * r.h

-- `Rect::is_empty`
abbrev pub is_empty : Rect → Bool
is_empty r = r.w == 0 || r.h == 0

-- `Rect::contains`
abbrev pub contains : Rect → ℕ → ℕ → Bool
contains r px py = leb r.x px && ltb px (right r) && leb r.y py && ltb py (bottom r)

-- `Rect::span_overlap`; `saturating_sub` is the subtraction on ℕ.
abbrev pub span_overlap : ℕ → ℕ → ℕ → ℕ → ℕ
span_overlap a0 a1 b0 b1 = min a1 b1 - max a0 b0

-- The edges of a rectangle are themselves `u16` coordinates.
pub record Fits (r : Rect) : Type 0 where
  pub right_fits : right r < u16_mod
  pub bottom_fits : bottom r < u16_mod
