-- ===== src/Dex/Tick.antt =====
-- `sqrt_ratio_at_tick` of crates/dex/src/uniswap_v3.rs: the square-root price of a tick. The hex
-- constants, which the source parses from strings, are numerals here. A division by a ratio of 0
-- would panic, here it gives 0.
pub mod Range
use Prim.Native.Nat.{bit_and}
use dexmoney.Prelude.{
  ℕ, ◌+◌, ◌/◌, ◌%◌, ◌^◌, Option, some, ◌≡◌, refl, List, [], ◌∷◌, ok, err, ◌>>=◌, ok_or, and_then,
  ◌==◌, ◌&&◌, not, if◌then◌else◌,
}
use dexmoney.Prelude.Int.{ℤ, pos, negsuc, unsigned_abs, leb_ℤ, ltb_ℤ}
use dexmoney.Word.{u256_max, checked_mul}
use dexmoney.Common.Errors.{quote, ArbResult}

abbrev pub min_tick : ℤ
min_tick = negsuc 887_271

abbrev pub max_tick : ℤ
max_tick = pos 887_272

-- The factor of each bit of the tick from bit 1 on.
abbrev pub tick_factors : List (ℕ × ℕ)
tick_factors =
    (0x2, 0xfff97272373d413259a46990580e213a)
    ∷ (0x4, 0xfff2e50f5f656932ef12357cf3c7fdcc)
    ∷ (0x8, 0xffe5caca7e10e4e61c3624eaa0941cd0)
    ∷ (0x10, 0xffcb9843d60f6159c9db58835c926644)
    ∷ (0x20, 0xff973b41fa98c081472e6896dfb254c0)
    ∷ (0x40, 0xff2ea16466c96a3843ec78b326b52861)
    ∷ (0x80, 0xfe5dee046a99a2a811c461f1969c3053)
    ∷ (0x100, 0xfcbe86c7900a88aedcffc83b479aa3a4)
    ∷ (0x200, 0xf987a7253ac413176f2b074cf7815e54)
    ∷ (0x400, 0xf3392b0822b70005940c7a398e4b70f3)
    ∷ (0x800, 0xe7159475a2c29b7443b29c7fa6e889d9)
    ∷ (0x1000, 0xd097f3bdfd2022b8845ad8f792aa5825)
    ∷ (0x2000, 0xa9f746462d870fdf8a65dc1f90e061e5)
    ∷ (0x4000, 0x70d869a156d2a1b890bb3df62baf32f7)
    ∷ (0x8000, 0x31be135f97d08fd981231505542fcfa6)
    ∷ (0x10000, 0x9aa508b5b7a84e1c677de54f3e99bc9)
    ∷ (0x20000, 0x5d6af8dedb81196699c329225ee604)
    ∷ (0x40000, 0x2216e584f5fa1ea926041bedfe98)
    ∷ (0x80000, 0x48a170391f7dc42444e8fa2)
    ∷ []

unfoldable pub first_ratio : ℕ → ℕ
first_ratio abs_tick =
    if not (bit_and abs_tick 0x1 == 0) then 0xfffcb933bd6fad37aa2d162d1a594001 else 2 ^ 128

-- The loop over the factors.
unfoldable pub apply_factors : List (ℕ × ℕ) → ℕ → ℕ → Option ℕ
apply_factors [] abs_tick ratio = some ratio
apply_factors ((mask, value) ∷ rest) abs_tick ratio =
    and_then
      (if not (bit_and abs_tick mask == 0)
        then and_then (checked_mul ratio value) (λ product. some (product / 2 ^ 128))
        else some ratio)
      (apply_factors rest abs_tick)

-- The last 32 bits are dropped, rounding up.
unfoldable pub round_ratio : ℕ → ℕ
round_ratio ratio = if ratio % 2 ^ 32 == 0 then ratio / 2 ^ 32 else ratio / 2 ^ 32 + 1

unfoldable pub sqrt_ratio_at_tick : ℤ → ArbResult ℕ
sqrt_ratio_at_tick tick =
    if not (leb_ℤ min_tick tick && leb_ℤ tick max_tick) then err (quote "tick out of range") else do
      let abs_tick = unsigned_abs tick
      ratio ←
          ok_or (apply_factors tick_factors abs_tick (first_ratio abs_tick))
            (quote "tick ratio overflow")
      ok (round_ratio (if ltb_ℤ (pos 0) tick then u256_max / ratio else ratio))

-- The two ends of the range, and the price of 1.
ends :
    (sqrt_ratio_at_tick min_tick ≡ ok 4295128739)
    × (sqrt_ratio_at_tick max_tick ≡ ok 1461446703485210103287273052203988822378723970342)
    × (sqrt_ratio_at_tick (pos 0) ≡ ok (2 ^ 96))
unfolding sqrt_ratio_at_tick first_ratio apply_factors round_ratio
ends = (refl, refl, refl)
