-- ===== src/Word.antt =====
-- alloy's U256 and Rust's u64, u32: natural numbers below `2 ^ w`, with the operators that the
-- sources use. Checked operations give none exactly where the exact result does not fit, saturating
-- ones the nearest value that fits. `-` on numbers stops at 0, which is `saturating_sub`.
pub mod Division
use dexmoney.Prelude.{ℕ, ◌+◌, ◌-◌, ◌*◌, ◌/◌, ◌^◌, Option, none, some, ltb, ◌==◌, if◌then◌else◌}

abbrev pub u256_mod : ℕ
u256_mod = 2 ^ 256

abbrev pub u256_max : ℕ
u256_max = 2 ^ 256 - 1

abbrev pub u64_max : ℕ
u64_max = 2 ^ 64 - 1

abbrev pub u32_max : ℕ
u32_max = 2 ^ 32 - 1

abbrev pub checked_add : ℕ → ℕ → Option ℕ
checked_add a b = if ltb (a + b) u256_mod then some (a + b) else none

abbrev pub checked_mul : ℕ → ℕ → Option ℕ
checked_mul a b = if ltb (a * b) u256_mod then some (a * b) else none

abbrev pub checked_sub : ℕ → ℕ → Option ℕ
checked_sub a b = if ltb a b then none else some (a - b)

abbrev pub checked_div : ℕ → ℕ → Option ℕ
checked_div a b = if b == 0 then none else some (a / b)

-- U512's
abbrev pub checked_add_u512 : ℕ → ℕ → Option ℕ
checked_add_u512 a b = if ltb (a + b) (2 ^ 512) then some (a + b) else none

abbrev pub checked_mul_u512 : ℕ → ℕ → Option ℕ
checked_mul_u512 a b = if ltb (a * b) (2 ^ 512) then some (a * b) else none

-- `value.checked_shl(bits)`
abbrev pub checked_shl : ℕ → ℕ → Option ℕ
checked_shl a bits = checked_mul a (2 ^ bits)

-- saturating operations at a type whose largest value is `top`
abbrev pub saturating_add : ℕ → ℕ → ℕ → ℕ
saturating_add top a b = if ltb top (a + b) then top else a + b

abbrev pub saturating_mul : ℕ → ℕ → ℕ → ℕ
saturating_mul top a b = if ltb top (a * b) then top else a * b
