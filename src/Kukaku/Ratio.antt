-- ===== src/Kukaku/Ratio.antt =====
-- kukaku/src/layout.rs, `SplitRatio`: a fraction whose constructor refines any `f32`.
use tear.Base.{◌≡◌, true, if◌then◌else◌, arith}
use tear.Kukaku.Float.{Float, IsIeee, max_ratio}

-- The field is private in the source: `SplitRatio.new` is the only way in.
pub record SplitRatio (Num : Type 0) : Type 0 where
  pub value : Num

module _ {Num : Type 0} ⦃f : Float Num⦄ where
  open f use {min_ratio, half, is_finite, clamp, le_f, lt_f, zero_f, one_f}

  -- `SplitRatio::BALANCED`
  abbrev pub balanced : SplitRatio Num
  balanced = record { value = half }

  -- `SplitRatio::new`
  unfoldable pub new : Num → SplitRatio Num
  new v = if is_finite v then record { value = clamp v min_ratio (max_ratio f) } else balanced

  -- What the private field promises.
  pub record IsRefined (r : SplitRatio Num) : Type 0 where
    pub above : le_f min_ratio r.value ≡ true
    pub under : le_f r.value (max_ratio f) ≡ true

  module _ (ieee : IsIeee f) where
    pub balanced-IsRefined : IsRefined balanced
    balanced-IsRefined = record { above = ieee.min-le-half; under = ieee.half-le-max }

    pub new-IsRefined : (v : Num) → IsRefined (new v)
    unfolding new
    new-IsRefined v = ground (
      arith,
      ieee.finite-not-nan v,
      ieee.clamp_lower v min_ratio (max_ratio f),
      ieee.clamp_upper v min_ratio (max_ratio f),
      ieee.min-le-max,
      ieee.min-le-half,
      ieee.half-le-max,
    )

    -- A refined ratio lies strictly between 0 and 1.
    pub IsRefined-open :
        (r : SplitRatio Num)
        → IsRefined r
        → (lt_f zero_f r.value ≡ true) × (lt_f r.value one_f ≡ true)
    IsRefined-open r h = (
      ieee.lt-le_trans zero_f min_ratio r.value ieee.zero-lt-min h.above,
      ieee.le-lt_trans r.value (max_ratio f) one_f h.under ieee.max-lt-one,
    )
