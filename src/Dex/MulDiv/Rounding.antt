-- ===== src/Dex/MulDiv/Rounding.antt =====
-- The full-precision operations beside the exact quotients.
use dexmoney.Prelude.{ℕ, ◌+◌, ◌*◌, ◌≤◌, ◌<◌, ◌≡◌, true, ok, arith}
use dexmoney.Word.Division.{div_bounds, div_split, lt_of_mul_lt}
use dexmoney.Dex.MulDiv.{
  div_round, mul_div, mul_div_u512, mul_div_rounding_up, mul_div_rounding_up_u512,
}

-- `q` is `n / d` rounded down, or rounded up.
abbrev pub IsFloor : ℕ → ℕ → ℕ → Type 0
IsFloor n d q = (0 < d) × (q * d ≤ n) × (n < q * d + d)

abbrev pub IsCeiling : ℕ → ℕ → ℕ → Type 0
IsCeiling n d q = (0 < d) × (n ≤ q * d) × (q * d < n + d)

pub mul_div-IsFloor : (a b d : ℕ) {q : ℕ} → mul_div a b d ≡ ok q → IsFloor (a * b) d q
unfolding mul_div
mul_div-IsFloor a b d h = ground (arith, div_bounds (a * b) d)

pub mul_div_rounding_up-IsCeiling :
    (a b d : ℕ) {q : ℕ} → mul_div_rounding_up a b d ≡ ok q → IsCeiling (a * b) d q
unfolding mul_div_rounding_up
mul_div_rounding_up-IsCeiling a b d h = ground (arith, div_split (a * b) d)

pub mul_div_rounding_up_u512-IsCeiling :
    (a b d : ℕ) {q : ℕ} → mul_div_rounding_up_u512 a b d ≡ ok q → IsCeiling (a * b) d q
unfolding mul_div_rounding_up_u512
mul_div_rounding_up_u512-IsCeiling a b d h = ground (arith, div_split (a * b) d)

pub div_round_up-IsCeiling : (n d : ℕ) {q : ℕ} → div_round n d true ≡ ok q → IsCeiling n d q
unfolding div_round
div_round_up-IsCeiling n d h = ground (arith, div_split n d)

pub mul_div_u512-IsFloor : (a b d : ℕ) {q : ℕ} → mul_div_u512 a b d ≡ ok q → IsFloor (a * b) d q
unfolding mul_div_u512
mul_div_u512-IsFloor a b d h = ground (arith, div_bounds (a * b) d)

-- Nothing above the quotient fits.
pub le_of_IsFloor : (n d q x : ℕ) → IsFloor n d q → x * d ≤ n → x ≤ q
le_of_IsFloor n d q x (p, a, b) h =
    let strict : x < q + 1 = lt_of_mul_lt x (q + 1) d (omega arith) in omega arith
