-- ===== src/Dex/MulDiv.antt =====
-- Full-precision products and quotients of crates/dex/src/uniswap_v3.rs. A product of two U256
-- values is taken as a U512, which it always fits, so the unchecked operator
-- never wraps.
pub mod Rounding
use dexmoney.Prelude.{
  ℕ, ◌*◌, ◌/◌, ◌%◌, ◌^◌, Bool, ok, err, ◌>>=◌, ok_or, ltb, leb, ◌==◌, ◌&&◌, not, arith, ◌≤◌, ◌≡◌,
  if◌then◌else◌,
}
use dexmoney.Word.{u256_mod, checked_add, checked_mul_u512}
use dexmoney.Common.Errors.{quote, ArbResult}

abbrev pub q96 : ℕ
q96 = 2 ^ 96

abbrev pub q192 : ℕ
q192 = 2 ^ 192

unfoldable pub ordered : ℕ → ℕ → ℕ × ℕ
ordered a b = if leb a b then (a, b) else (b, a)

unfoldable pub u512_to_u256 : ℕ → ArbResult ℕ
u512_to_u256 value = if ltb value u256_mod then ok value else err (quote "mulDiv overflow")

unfoldable pub div_round : ℕ → ℕ → Bool → ArbResult ℕ
div_round numerator denominator round_up =
    if denominator == 0
    then err (quote "division by zero")
    else let quotient = numerator / denominator in
      if round_up && not (numerator % denominator == 0)
      then ok_or (checked_add quotient 1) (quote "rounded division overflow")
      else ok quotient

unfoldable pub mul_div : ℕ → ℕ → ℕ → ArbResult ℕ
unfolding u512_to_u256
mul_div a b denominator =
    if denominator == 0 then err (quote "division by zero") else u512_to_u256 (a * b / denominator)

-- The second factor and the denominator are U512 values: the product may overflow.
unfoldable pub mul_div_u512 : ℕ → ℕ → ℕ → ArbResult ℕ
unfolding u512_to_u256
mul_div_u512 a b denominator = if denominator == 0 then err (quote "division by zero") else do
  numerator ← ok_or (checked_mul_u512 a b) (quote "spot quote overflow")
  u512_to_u256 (numerator / denominator)

unfoldable pub mul_div_rounding_up : ℕ → ℕ → ℕ → ArbResult ℕ
unfolding u512_to_u256
mul_div_rounding_up a b denominator =
    if denominator == 0 then err (quote "division by zero") else do
      let numerator = a * b
      value ← u512_to_u256 (numerator / denominator)
      if numerator % denominator == 0
          then ok value
          else ok_or (checked_add value 1) (quote "mulDiv rounding overflow")

-- The same with a U512 denominator.
unfoldable pub mul_div_rounding_up_u512 : ℕ → ℕ → ℕ → ArbResult ℕ
unfolding u512_to_u256
mul_div_rounding_up_u512 a b denominator =
    if denominator == 0 then err (quote "division by zero") else do
      let numerator = a * b
      value ← u512_to_u256 (numerator / denominator)
      if numerator % denominator == 0
          then ok value
          else ok_or (checked_add value 1) (quote "mulDiv rounding overflow")

pub ordered_le : (a b : ℕ) → a ≤ b → ordered a b ≡ (a, b)
unfolding ordered
ordered_le a b h = ground arith
