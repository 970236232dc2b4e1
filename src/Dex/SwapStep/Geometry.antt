-- ===== src/Dex/SwapStep/Geometry.antt =====
-- Inequalities between exact quotients that place the next price and the amounts of a swap step.
use native.Mathlib.Nat.{mul-le-mul, le_refl}
use dexmoney.Prelude.{ℕ, ◌+◌, ◌-◌, ◌*◌, ◌^◌, ◌≤◌, ◌<◌, ◌≡◌, ap, arith}
use dexmoney.Word.Division.{lt_of_mul_lt, le_of_mul_le}
use dexmoney.Dex.MulDiv.Rounding.{IsFloor, IsCeiling}

-- A fee that is charged on the input of a full step fits into what the step may use.
pub full_step_fits :
    (remaining fee less amount charged : ℕ)
    → IsFloor (remaining * (1_000_000 - fee)) 1_000_000 less
    → IsCeiling (amount * fee) (1_000_000 - fee) charged
    → amount ≤ less
    → amount + charged ≤ remaining
full_step_fits remaining fee less amount charged (_, a, _) (pos, _, d) le =
    let g = 1_000_000 - fee in
    let whole : amount * (g + fee) ≡ amount * 1_000_000 = ap (λ n. amount * n) (omega arith) in
    let strict : amount + charged < remaining + 1 =
      lt_of_mul_lt (amount + charged) (remaining + 1) g (omega arith) in
    omega arith

pub less_fits :
    (remaining fee less : ℕ)
    → IsFloor (remaining * (1_000_000 - fee)) 1_000_000 less
    → less ≤ remaining
less_fits remaining fee less (_, a, _) =
    let le : remaining * (1_000_000 - fee) ≤ remaining * 1_000_000 =
      mul-le-mul (le_refl remaining) (omega arith) in
    le_of_mul_le less remaining 1_000_000 (omega arith) (omega arith)

-- Selling token 0: `n` is the liquidity shifted by 96 bits.
module _ (n price target less to_target next : ℕ) (below : target ≤ price) where
  pub sell0_price :
      IsCeiling (n * (price - target)) (price * target) to_target
      → less < to_target
      → IsCeiling (n * price) (n + less * price) next
      → (target < next) × (next ≤ price)
  sell0_price (p, a, b) short (q, c, d) =
      let e : price ≡ target + (price - target) = omega arith in
      let shifted : n * price ≡ n * (target + (price - target)) = ap (λ m. n * m) e in
      let more : (less + 1) * (price * target) ≤ to_target * (price * target) =
        mul-le-mul (omega arith) (le_refl (price * target)) in
      let up : target < next = lt_of_mul_lt target next (n + less * price) (omega arith) in
      let down : next < price + 1 =
        lt_of_mul_lt next (price + 1) (n + less * price) (omega arith) in
      (up, omega arith)

  pub sell0_amount :
      (amount : ℕ)
      → next ≤ price
      → IsCeiling (n * price) (n + less * price) next
      → IsCeiling (n * (price - next)) (price * next) amount
      → amount ≤ less
  sell0_amount amount le (q, c, d) (p, a, b) =
      let e : price ≡ next + (price - next) = omega arith in
      let shifted : n * price ≡ n * (next + (price - next)) = ap (λ m. n * m) e in
      let strict : amount < less + 1 =
        lt_of_mul_lt amount (less + 1) (price * next) (omega arith) in
      omega arith

-- Selling token 1.
module _ (liquidity price target less to_target next : ℕ) (above : price ≤ target) where
  pub sell1_price :
      IsCeiling (liquidity * (target - price)) (2 ^ 96) to_target
      → less < to_target
      → price ≤ next
      → IsFloor (less * 2 ^ 96) liquidity (next - price)
      → next < target
  sell1_price (p, a, b) short le (q, c, d) =
      let strict : next - price < target - price =
        lt_of_mul_lt (next - price) (target - price) liquidity (omega arith) in
      omega arith

  pub sell1_amount :
      (amount : ℕ)
      → IsFloor (less * 2 ^ 96) liquidity (next - price)
      → IsCeiling (liquidity * (next - price)) (2 ^ 96) amount
      → amount ≤ less
  sell1_amount amount (q, c, d) (p, a, b) = omega arith
