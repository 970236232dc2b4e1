-- ===== src/Dex/Tick/Range.antt =====
-- The tick range and its prices.
use Prim.Native.Nat.{bit_and}
use native.Mathlib.Nat.{mul-le-mul, le_refl}
use dexmoney.Prelude.{
  ℕ, ◌-◌, ◌*◌, ◌/◌, ◌^◌, ◌≤◌, ◌<◌, ◌≡◌, refl, some, List, [], ◌∷◌, All, ok, arith, inl, inr,
  Bool-cases, ◌==◌, true, ◌&&◌,
}
use dexmoney.Prelude.Int.{ℤ, pos, ◌≤ℤ◌, unsigned_abs, ltb_ℤ, leb_ℤ}
use dexmoney.Word.Division.{le-div}
use dexmoney.Word.{checked_mul, u256_max}
use dexmoney.Dex.Tick.{
  min_tick, max_tick, tick_factors, first_ratio, apply_factors, round_ratio, sqrt_ratio_at_tick,
}

-- All factors applied, whatever the tick's bits.
abbrev least : List (ℕ × ℕ) → ℕ → ℕ
least [] ratio = ratio
least ((_, value) ∷ rest) ratio = least rest (ratio * value / 2 ^ 128)

abbrev IsFactor : ℕ × ℕ → Type 0
IsFactor (_, value) = value < 2 ^ 128

div_mono : (a b : ℕ) → a ≤ b → a / 2 ^ 128 ≤ b / 2 ^ 128
div_mono a b h = omega arith

least_mono : (fs : List (ℕ × ℕ)) (a b : ℕ) → a ≤ b → least fs a ≤ least fs b
least_mono [] a b h = h
least_mono ((_, v) ∷ fs) a b h =
    least_mono fs (a * v / 2 ^ 128) (b * v / 2 ^ 128)
      (div_mono (a * v) (b * v) (mul-le-mul h (le_refl v)))

below : {a b : ℕ} → a < b → a ≤ b
below h = omega arith

pred_le : {a : ℕ} → a < 2 ^ 128 → a ≤ 2 ^ 128 - 1
pred_le h = omega arith

scaled_le : (ratio value : ℕ) → value < 2 ^ 128 → ratio * value / 2 ^ 128 ≤ ratio
scaled_le ratio value h =
    let le : ratio * value ≤ ratio * 2 ^ 128 = mul-le-mul (le_refl ratio) (below h) in omega arith

product_lt : (ratio value : ℕ) → ratio ≤ 2 ^ 128 → value < 2 ^ 128 → ratio * value < 2 ^ 256
product_lt ratio value h k =
    let le : ratio * value ≤ 2 ^ 128 * (2 ^ 128 - 1) = mul-le-mul h (pred_le k) in omega arith

checked_mul_fits : (a b : ℕ) → a * b < 2 ^ 256 → checked_mul a b ≡ some (a * b)
checked_mul_fits a b h = ground arith

-- The loop over any factors below 1 gives a ratio between the least one and the start.
apply_factors_bounds :
    (fs : List (ℕ × ℕ)) (abs_tick ratio : ℕ)
    → All IsFactor fs
    → ratio ≤ 2 ^ 128
    → (r : ℕ) × (apply_factors fs abs_tick ratio ≡ some r) × (least fs ratio ≤ r) × (r ≤ ratio)
unfolding apply_factors
apply_factors_bounds [] abs_tick ratio f h = (ratio, refl, le_refl ratio, le_refl ratio)
apply_factors_bounds ((mask, v) ∷ fs) abs_tick ratio (p, ps) h =
    let next = ratio * v / 2 ^ 128 in
    let smaller = scaled_le ratio v p in
    let fits = product_lt ratio v h p in
    elim (Bool-cases (bit_and abs_tick mask == 0)) [
      | inl skip ↦
          let (r, e, lo, hi) = apply_factors_bounds fs abs_tick ratio ps h in
          (r, rw skip e, omega (arith, least_mono fs next ratio smaller), hi)
      | inr take ↦
          let (r, e, lo, hi) = apply_factors_bounds fs abs_tick next ps (omega arith) in
          (r, rw (take, checked_mul_fits ratio v fits) e, lo, omega arith)
    ]

first_ratio_bounds :
    (abs_tick : ℕ)
    → (0xfffcb933bd6fad37aa2d162d1a594001 ≤ first_ratio abs_tick) × (first_ratio abs_tick ≤ 2 ^ 128)
unfolding first_ratio
first_ratio_bounds abs_tick = elim (Bool-cases (bit_and abs_tick 0x1 == 0)) [
  | inl even ↦ rw even (omega arith)
  | inr odd ↦ rw odd (omega arith)
]

factors_IsFactor : All IsFactor tick_factors
factors_IsFactor = omega arith

least_pos : 0 < least tick_factors 0xfffcb933bd6fad37aa2d162d1a594001
least_pos = omega arith

round_ratio_bounds :
    (x : ℕ)
    → (0 < x → 0 < round_ratio x)
      × (x ≤ 2 ^ 128 → round_ratio x ≤ 2 ^ 96)
      × (2 ^ 128 - 1 ≤ x → 2 ^ 96 ≤ round_ratio x)
unfolding round_ratio
round_ratio_bounds x = (ground arith, ground arith, ground arith)

inverse_ge : (ratio : ℕ) → 0 < ratio → ratio ≤ 2 ^ 128 → 2 ^ 128 - 1 ≤ (2 ^ 256 - 1) / ratio
inverse_ge ratio p h =
    let le : (2 ^ 128 - 1) * ratio ≤ (2 ^ 128 - 1) * 2 ^ 128 =
      mul-le-mul (le_refl (2 ^ 128 - 1)) h in
    le-div (2 ^ 128 - 1) (2 ^ 256 - 1) ratio p (omega arith)

ratio_bounds :
    (abs_tick : ℕ)
    → (ratio : ℕ) × (apply_factors tick_factors abs_tick (first_ratio abs_tick) ≡ some ratio)
      × (0 < ratio)
      × (ratio ≤ 2 ^ 128)
ratio_bounds abs_tick =
    let (lo, hi) = first_ratio_bounds abs_tick in
    let (ratio, e, least_le, le) =
      apply_factors_bounds tick_factors abs_tick (first_ratio abs_tick) factors_IsFactor hi in
    (
      ratio,
      e,
      omega (arith, least_pos, least_mono tick_factors 0xfffcb933bd6fad37aa2d162d1a594001 _ lo),
      omega arith,
    )

in_range :
    (tick : ℤ)
    → min_tick ≤ℤ tick
    → tick ≤ℤ max_tick
    → (leb_ℤ min_tick tick && leb_ℤ tick max_tick) ≡ true
in_range tick lo hi = ground arith

-- Every tick of the range has a price that is not 0; it is at most `2 ^ 96`, the price of 1, for
-- the ticks up to 0, and at least that for the ticks above.
pub sqrt_ratio_at_tick_total :
    (tick : ℤ)
    → min_tick ≤ℤ tick
    → tick ≤ℤ max_tick
    → (r : ℕ) × (sqrt_ratio_at_tick tick ≡ ok r)
      × (0 < r)
      × (tick ≤ℤ pos 0 → r ≤ 2 ^ 96)
      × (pos 1 ≤ℤ tick → 2 ^ 96 ≤ r)
unfolding sqrt_ratio_at_tick
sqrt_ratio_at_tick_total tick lo hi =
    let (ratio, e, positive, le) = ratio_bounds (unsigned_abs tick) in
    let inverse = inverse_ge ratio positive le in
    elim (Bool-cases (ltb_ℤ (pos 0) tick)) [
      | inl above ↦
          let (some_price, _, high) = round_ratio_bounds (u256_max / ratio) in
          (
            round_ratio (u256_max / ratio),
            rw (in_range tick lo hi, e, above),
            some_price (omega arith),
            ground arith,
            λ _. high inverse,
          )
      | inr below ↦
          let (some_price, low, _) = round_ratio_bounds ratio in
          (
            round_ratio ratio,
            rw (in_range tick lo hi, e, below),
            some_price positive,
            λ _. low le,
            ground arith,
          )
    ]
