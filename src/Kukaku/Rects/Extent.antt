-- ===== src/Kukaku/Rects/Extent.antt =====
-- `split_extent` of kukaku/src/layout.rs: neither side of a divided extent vanishes.
use tear.Base.{ℕ, ◌-◌, ◌≤◌, ◌<◌, ◌≡◌, false, arith, leb}
use tear.Kukaku.Float.{Float, IsIeee}
use tear.Kukaku.Ratio.{SplitRatio, IsRefined}
use tear.Kukaku.Rects.{split_extent}

module _ {Num : Type 0} ⦃f : Float Num⦄ (ieee : IsIeee f) (r : SplitRatio Num) where
  open f use {one_f, of_ℕ, to_u16, sub_f, mul_f, round, clamp, is_nan}

  inner : ℕ → Num
  inner total = clamp (round (mul_f (of_ℕ total) r.value)) (of_ℕ 1) (of_ℕ (total - 1))

  inner_bounds :
      (total : ℕ)
      → IsRefined r
      → 2 ≤ total
      → total < 65536
      → (1 ≤ to_u16 (inner total)) × (to_u16 (inner total) ≤ total - 1)
  unfolding inner
  inner_bounds total h two fits =
      let finite = ieee.between_finite r.value h.above h.under in
      let number =
        ieee.round-not-nan _
          (ieee.mul-not-nan (of_ℕ total) r.value (ieee.of_ℕ_finite total fits) finite) in
      let ordered = ieee.le-of_ℕ 1 (total - 1) (omega arith) (omega arith) in
      let low = ieee.to_u16_mono _ _ (ieee.clamp_lower _ _ _ number ordered) in
      let high = ieee.to_u16_mono _ _ (ieee.clamp_upper _ _ _ number ordered) in
      (
        omega (arith, low, ieee.to_u16-of_ℕ 1 (omega arith)),
        omega (arith, high, ieee.to_u16-of_ℕ (total - 1) (omega arith)),
      )

  split_extent-inner :
      (total : ℕ) → 2 ≤ total → total < 65536 → split_extent total r.value ≡ to_u16 (inner total)
  unfolding split_extent inner
  split_extent-inner total two fits =
      let large : leb total 1 ≡ false = ground arith in
      rw (large, ieee.sub_one total (omega arith) fits, ieee.one-of_ℕ)

  split_extent_small : (total : ℕ) → total ≤ 1 → split_extent total r.value ≡ total
  unfolding split_extent
  split_extent_small total small = ground arith

  -- Of an extent of at most one cell, side `a` takes all; of a larger one that fits a `u16`, both
  -- sides get at least one cell.
  pub split_extent_bounds :
      (total : ℕ)
      → IsRefined r
      → total < 65536
      → (total ≤ 1 → split_extent total r.value ≡ total)
        × (2 ≤ total → (1 ≤ split_extent total r.value) × (split_extent total r.value ≤ total - 1))
  split_extent_bounds total h fits = (
    split_extent_small total,
    λ two. rw (split_extent-inner total two fits) (inner_bounds total h two fits),
  )

  pub split_extent-le :
      (total : ℕ) → IsRefined r → total < 65536 → split_extent total r.value ≤ total
  split_extent-le total h fits =
      ground (arith, (split_extent_bounds total h fits).0, (split_extent_bounds total h fits).1)
