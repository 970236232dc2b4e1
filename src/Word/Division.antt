-- ===== src/Word/Division.antt =====
-- Bounds of the quotient of two numbers, rounded down and up, in products that `omega` reads.
use native.Mathlib.Nat.{le-div_iff_mul-le, div-lt_iff_lt-mul}
use dexmoney.Prelude.{ℕ, ◌+◌, ◌*◌, ◌/◌, ◌%◌, ◌≡◌, ◌≤◌, ◌<◌, arith}

pub div_bounds : (n d : ℕ) → 0 < d → (n / d * d ≤ n) × (n < n / d * d + d)
div_bounds n d h = omega arith

-- The remainder, with the quotient's product.
pub div_split :
    (n d : ℕ) → 0 < d → (n / d * d + n % d ≡ n) × (n % d < d) × ((n / d + 1) * d ≡ n / d * d + d)
div_split n d h = omega arith

pub lt_of_mul_lt : (a b c : ℕ) → a * c < b * c → a < b
lt_of_mul_lt a b c h = grind arith

pub le_of_mul_le : (a b c : ℕ) → 0 < c → a * c ≤ b * c → a ≤ b
le_of_mul_le a b c p h = grind arith

pub le-div : (q n d : ℕ) → 0 < d → q * d ≤ n → q ≤ n / d
le-div q n d p h = (le-div_iff_mul-le p).1 h

pub div-lt : (q n d : ℕ) → 0 < d → n < q * d → n / d < q
div-lt q n d p h = (div-lt_iff_lt-mul p).1 h
