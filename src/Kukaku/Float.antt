-- ===== src/Kukaku/Float.antt =====
-- The `f32` arithmetic that kukaku/src/layout.rs calls. Rust's floats are not part of the
-- repository: the operations are a parameter, with the documented facts that the layout code
-- relies on. `Num` is the type of `f32` values, NaN and the infinities among them;
-- NaN is one value, since the code never looks at the bits of one.
use tear.Base.{ℕ, ◌-◌, ◌*◌, ◌≤◌, ◌<◌, ◌≡◌, Bool, true, false}

pub record Float (Num : Type 0) : Type 0 where
  pub zero_f : Num
  pub one_f : Num
  pub neg_one_f : Num
  -- The literals 0.05 and 0.5.
  pub min_ratio : Num
  pub half : Num
  -- `f32::from(u16)` and `usize as f32`
  pub of_ℕ : ℕ → Num
  -- `as u16`, which saturates and takes NaN to 0
  pub to_u16 : Num → ℕ
  pub is_finite : Num → Bool
  pub is_nan : Num → Bool
  pub lt_f : Num → Num → Bool
  pub le_f : Num → Num → Bool
  pub add_f : Num → Num → Num
  pub sub_f : Num → Num → Num
  pub mul_f : Num → Num → Num
  pub div_f : Num → Num → Num
  pub round : Num → Num
  pub clamp : Num → Num → Num → Num
  -- `(n as f64).sqrt().ceil() as usize`
  pub ceil_sqrt : ℕ → ℕ

-- `1.0 - MIN_RATIO`
abbrev pub max_ratio : {Num : Type 0} → Float Num → Num
max_ratio f = f.sub_f f.one_f f.min_ratio

module _ {Num : Type 0} (f : Float Num) where
  open f use {
    zero_f, one_f, neg_one_f, min_ratio, half, of_ℕ, to_u16, is_finite, is_nan, lt_f, le_f, add_f,
    sub_f, mul_f, round, clamp, ceil_sqrt,
  }

  -- What IEEE 754 and Rust's documentation say of these.
  pub record IsIeee : Type 0 where
    -- The literals, compared.
    pub zero-lt-min : lt_f zero_f min_ratio ≡ true
    pub min-le-half : le_f min_ratio half ≡ true
    pub half-le-max : le_f half (max_ratio f) ≡ true
    pub max-lt-one : lt_f (max_ratio f) one_f ≡ true
    pub min-le-max : le_f min_ratio (max_ratio f) ≡ true
    pub half_finite : is_finite half ≡ true
    pub lt-le_trans : (a b c : Num) → lt_f a b ≡ true → le_f b c ≡ true → lt_f a c ≡ true
    pub le-lt_trans : (a b c : Num) → le_f a b ≡ true → lt_f b c ≡ true → lt_f a c ≡ true
    -- Multiplying by 1 and by -1 is exact, and adding the opposite is subtracting.
    pub mul_one : (a b : Num) → add_f a (mul_f one_f b) ≡ add_f a b
    pub mul_neg_one : (a b : Num) → add_f a (mul_f neg_one_f b) ≡ sub_f a b
    -- `f32::clamp` with ordered bounds: within them unless the input is NaN.
    pub clamp_lower :
        (v lo hi : Num) → is_nan v ≡ false → le_f lo hi ≡ true → le_f lo (clamp v lo hi) ≡ true
    pub clamp_upper :
        (v lo hi : Num) → is_nan v ≡ false → le_f lo hi ≡ true → le_f (clamp v lo hi) hi ≡ true
    -- A value within finite bounds is finite; a finite value is not NaN.
    pub finite-not-nan : (v : Num) → is_finite v ≡ true → is_nan v ≡ false
    pub between_finite :
        (v : Num) → le_f min_ratio v ≡ true → le_f v (max_ratio f) ≡ true → is_finite v ≡ true
    pub of_ℕ_finite : (n : ℕ) → n < 65536 → is_finite (of_ℕ n) ≡ true
    pub mul-not-nan :
        (a b : Num) → is_finite a ≡ true → is_finite b ≡ true → is_nan (mul_f a b) ≡ false
    pub round-not-nan : (a : Num) → is_nan a ≡ false → is_nan (round a) ≡ false
    -- Whole numbers below 2 ^ 16 are exact, and `as u16` keeps the order.
    pub one-of_ℕ : one_f ≡ of_ℕ 1
    pub sub_one : (n : ℕ) → 1 ≤ n → n < 65536 → sub_f (of_ℕ n) one_f ≡ of_ℕ (n - 1)
    pub le-of_ℕ : (m n : ℕ) → m ≤ n → n < 65536 → le_f (of_ℕ m) (of_ℕ n) ≡ true
    pub to_u16-of_ℕ : (n : ℕ) → n < 65536 → to_u16 (of_ℕ n) ≡ n
    pub to_u16_mono : (a b : Num) → le_f a b ≡ true → to_u16 a ≤ to_u16 b
    -- The least number of rows whose square holds n, for the sizes of a slice of ids.
    pub sqrt_upper : (n : ℕ) → n < 4294967296 → n ≤ ceil_sqrt n * ceil_sqrt n
    pub sqrt_lower : (n r : ℕ) → n < 4294967296 → r < ceil_sqrt n → r * r < n
