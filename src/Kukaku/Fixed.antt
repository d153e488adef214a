-- ===== src/Kukaku/Fixed.antt =====
-- Fixed-point numbers in thousandths, with a NaN: a concrete meaning for the `f32` operations of
-- kukaku/src/layout.rs, on which the tests of the layout algebra run.
use Prim.Native.Nat.{min, max}
use tear.Base.{
  ℕ, zero, suc, ◌+◌, ◌-◌, ◌*◌, ◌/◌, ◌≤◌, ◌<◌, ◌≡◌, refl, ap, Bool, true, false, not, if◌then◌else◌,
  leb, ltb, ◌==◌, arith, Bool-cases, inl, inr,
}
use tear.Kukaku.Float.{Float, IsIeee}

-- `num k` stands for (k - 1000000) / 1000.
pub data Fixed : Type 0 where
  nan : Fixed
  num : ℕ → Fixed

abbrev origin : ℕ
origin = 1000000

abbrev le_fixed : Fixed → Fixed → Bool
le_fixed (num a) (num b) = leb a b
le_fixed (num a) nan = false
le_fixed nan b = false

abbrev lt_fixed : Fixed → Fixed → Bool
lt_fixed (num a) (num b) = ltb a b
lt_fixed (num a) nan = false
lt_fixed nan b = false

abbrev lift₂ : (ℕ → ℕ → ℕ) → Fixed → Fixed → Fixed
lift₂ op (num a) (num b) = num (op a b)
lift₂ op (num a) nan = nan
lift₂ op nan b = nan

abbrev mul_raw : ℕ → ℕ → ℕ
mul_raw a b =
    if leb origin a
    then (if leb origin b
        then origin + (a - origin) * (b - origin) / 1000
        else origin - (a - origin) * (origin - b) / 1000)
    else if leb origin b
    then origin - (origin - a) * (b - origin) / 1000
    else origin + (origin - a) * (origin - b) / 1000

abbrev round_raw : ℕ → ℕ
round_raw a =
    if leb origin a
    then origin + (a - origin + 500) / 1000 * 1000
    else origin - (origin - a + 500) / 1000 * 1000

abbrev clamp_fixed : Fixed → Fixed → Fixed → Fixed
clamp_fixed (num v) (num lo) (num hi) = num (max lo (min v hi))
clamp_fixed (num v) (num lo) nan = nan
clamp_fixed (num v) nan hi = nan
clamp_fixed nan lo hi = nan

abbrev to_cells : Fixed → ℕ
to_cells nan = 0
to_cells (num a) = min ((a - origin) / 1000) 65535

abbrev is_num : Fixed → Bool
is_num nan = false
is_num (num a) = true

abbrev round_fixed : Fixed → Fixed
round_fixed nan = nan
round_fixed (num a) = num (round_raw a)

-- The least `k` from `r` on with `n ≤ k * k`, looked for `fuel` times.
root_from : ℕ → ℕ → ℕ → ℕ
root_from zero n r = r
root_from (suc fuel) n r = let rest = root_from fuel n (suc r) in if leb n (r * r) then r else rest

unfoldable pub root : ℕ → ℕ
unfolding root_from
root n = root_from n n 0

root_from_upper : (fuel n r : ℕ) → n ≤ r + fuel → n ≤ root_from fuel n r * root_from fuel n r
unfolding root_from
root_from_upper zero n r h = grind arith
root_from_upper (suc fuel) n r h = ground (arith, root_from_upper fuel n (suc r))

below_suc : (n r : ℕ) → r * r < n → ((j : ℕ) → j < r → j * j < n) → (j : ℕ) → j < suc r → j * j < n
below_suc n r here below j h = elim (Bool-cases (j == r)) [
  | inl same ↦ let e : j ≡ r = ground arith in rw e here
  | inr other ↦ below j (ground arith)
]

root_from_lower :
    (fuel n r k : ℕ) → ((j : ℕ) → j < r → j * j < n) → k < root_from fuel n r → k * k < n
unfolding root_from
root_from_lower zero n r k below h = below k h
root_from_lower (suc fuel) n r k below h = elim (Bool-cases (leb n (r * r))) [
  | inl stop ↦ below k (ground arith)
  | inr more ↦ root_from_lower fuel n (suc r) k (below_suc n r (ground arith) below) (ground arith)
]

instance abbrev pub fixed_float : Float Fixed
fixed_float = record {
  zero_f = num origin;
  one_f = num (origin + 1000);
  neg_one_f = num (origin - 1000);
  min_ratio = num (origin + 50);
  half = num (origin + 500);
  of_ℕ = λ n. num (origin + 1000 * n);
  to_u16 = to_cells;
  is_finite = is_num;
  is_nan = λ a. not (is_num a);
  lt_f = lt_fixed;
  le_f = le_fixed;
  add_f = lift₂ (λ a b. a + b - origin);
  sub_f = lift₂ (λ a b. a + (origin + origin - b) - origin);
  mul_f = lift₂ mul_raw;
  div_f = lift₂ (λ a b. origin + (a - origin) * 1000 / (b - origin));
  round = round_fixed;
  clamp = clamp_fixed;
  ceil_sqrt = root;
}

lt-le : (a b c : Fixed) → lt_fixed a b ≡ true → le_fixed b c ≡ true → lt_fixed a c ≡ true
lt-le a b c h k = ground arith

le-lt : (a b c : Fixed) → le_fixed a b ≡ true → lt_fixed b c ≡ true → lt_fixed a c ≡ true
le-lt a b c h k = ground arith

clamped_low :
    (v lo hi : Fixed)
    → not (is_num v) ≡ false
    → le_fixed lo hi ≡ true
    → le_fixed lo (clamp_fixed v lo hi) ≡ true
clamped_low v lo hi h k = ground arith

clamped_high :
    (v lo hi : Fixed)
    → not (is_num v) ≡ false
    → le_fixed lo hi ≡ true
    → le_fixed (clamp_fixed v lo hi) hi ≡ true
clamped_high v lo hi h k = ground arith

between :
    (v : Fixed)
    → le_fixed (num (origin + 50)) v ≡ true
    → le_fixed v (num (origin + 950)) ≡ true
    → is_num v ≡ true
between v h k = ground arith

one_raw : (b : ℕ) → mul_raw (origin + 1000) b ≡ b
one_raw b = ground arith

one_times :
    (a b : Fixed)
    → lift₂ (λ a b. a + b - origin) a (lift₂ mul_raw (num (origin + 1000)) b)
      ≡ lift₂ (λ a b. a + b - origin) a b
one_times nan b = refl
one_times (num a) nan = refl
one_times (num a) (num b) = ap (λ k. num (a + k - origin)) (one_raw b)

opposite_raw : (b : ℕ) → mul_raw (origin - 1000) b ≡ origin + origin - b
opposite_raw b = ground arith

opposite :
    (a b : Fixed)
    → lift₂ (λ a b. a + b - origin) a (lift₂ mul_raw (num (origin - 1000)) b)
      ≡ lift₂ (λ a b. a + (origin + origin - b) - origin) a b
opposite nan b = refl
opposite (num a) nan = refl
opposite (num a) (num b) = ap (λ k. num (a + k - origin)) (opposite_raw b)

product :
    (a b : Fixed) → is_num a ≡ true → is_num b ≡ true → not (is_num (lift₂ mul_raw a b)) ≡ false
product nan b h k = cc
product (num a) nan h k = cc
product (num a) (num b) h k = refl

rounded : (a : Fixed) → not (is_num a) ≡ false → not (is_num (round_fixed a)) ≡ false
rounded nan h = cc
rounded (num a) h = refl

cells_mono : (a b : Fixed) → le_fixed a b ≡ true → to_cells a ≤ to_cells b
cells_mono a b h = ground arith

-- The operations have the properties that the layout algebra asks of `f32`.
pub fixed-IsIeee : IsIeee fixed_float
unfolding root
fixed-IsIeee = record {
  zero-lt-min = refl;
  min-le-half = refl;
  half-le-max = refl;
  max-lt-one = refl;
  min-le-max = refl;
  half_finite = refl;
  lt-le_trans = lt-le;
  le-lt_trans = le-lt;
  mul_one = one_times;
  mul_neg_one = opposite;
  clamp_lower = clamped_low;
  clamp_upper = clamped_high;
  finite-not-nan = λ v h. ground arith;
  between_finite = between;
  of_ℕ_finite = λ n h. refl;
  mul-not-nan = product;
  round-not-nan = rounded;
  one-of_ℕ = refl;
  sub_one = λ n h k. ap num (omega arith);
  le-of_ℕ = λ m n h k. ground arith;
  to_u16-of_ℕ = λ n h. omega arith;
  to_u16_mono = cells_mono;
  sqrt_upper = λ n h. root_from_upper n n 0 (omega arith);
  sqrt_lower = λ n r small h. root_from_lower n n 0 r (λ j hj. absurd (omega arith)) h;
}
