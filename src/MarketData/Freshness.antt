-- ===== src/MarketData/Freshness.antt =====
-- crates/market-data/src/listener.rs: how fresh the states are, and how far they have drifted from the chain.
pub mod Advance
use dexmoney.Prelude.{
  ℕ, ◌+◌, ◌-◌, ◌/◌, Bool, true, false, Option, none, some, List, [], ◌∷◌, ltb, ◌==◌, if◌then◌else◌,
  max, unwrap_or,
}
use dexmoney.Prelude.Int.{ℤ, pos_part, neg_part}
use dexmoney.Word.{u64_max, u256_max, saturating_mul, checked_div}
use dexmoney.Common.Pool.{Address, PoolState, PoolVariant, DexKind, effective_valid_through_block}

-- A round of `advance_valid_through_block`; the set of changed pools is a list.
unfoldable pub advance_state : ℕ → PoolState → PoolState
advance_state block_number state =
    if ltb (effective_valid_through_block state) block_number
    then record state { valid_through_block = block_number }
    else state

unfoldable pub advance_valid_through_block : List PoolState → ℕ → List PoolState × List Address
advance_valid_through_block [] block_number = ([], [])
advance_valid_through_block (state ∷ states) block_number =
    let rest = advance_valid_through_block states block_number in
    (
      advance_state block_number state ∷ rest.0,
      if ltb (effective_valid_through_block state) block_number
          then state.pool_id.address ∷ rest.1
          else rest.1,
    )

-- `abs_diff`
abbrev abs_diff : ℕ → ℕ → ℕ
abs_diff a b = if ltb a b then b - a else a - b

unfoldable pub value_drift_bps : Option ℕ → Option ℕ → ℕ
value_drift_bps none onchain = u64_max
value_drift_bps (some local) none = u64_max
value_drift_bps (some local) (some onchain) =
    if local == onchain
    then 0
    else if onchain == 0
    then u64_max
    else let bps =
        unwrap_or (checked_div (saturating_mul u256_max (abs_diff local onchain) 10_000) onchain)
          u256_max in
      if ltb u64_max bps then u64_max else bps

-- The distance of two ticks, which is 0 only where they are equal.
unfoldable pub tick_drift : Option ℤ → Option ℤ → ℕ
tick_drift (some local) (some onchain) =
    abs_diff (pos_part local + neg_part onchain) (pos_part onchain + neg_part local)
tick_drift _ _ = u64_max

unfoldable pub slipstream_fee_drift : Option ℕ → Option ℕ → ℕ
slipstream_fee_drift (some local) (some onchain) =
    if local == onchain then 0 else max ((abs_diff local onchain + 99) / 100) 1
slipstream_fee_drift _ _ = u64_max

abbrev is_slipstream : PoolVariant → Bool
is_slipstream PoolVariant.aerodrome_slipstream = true
is_slipstream _ = false

unfoldable pub aerodrome_fee_drift_bps : PoolState → PoolState → ℕ
unfolding slipstream_fee_drift
aerodrome_fee_drift_bps local onchain =
    if is_slipstream local.variant
    then slipstream_fee_drift local.fee_pips onchain.fee_pips
    else abs_diff local.fee_bps onchain.fee_bps

unfoldable pub reserve_drift_bps : PoolState → PoolState → ℕ
unfolding value_drift_bps
reserve_drift_bps local onchain =
    max (value_drift_bps local.reserve0 onchain.reserve0)
      (value_drift_bps local.reserve1 onchain.reserve1)

unfoldable pub v3_state_drift_bps : PoolState → PoolState → ℕ
unfolding value_drift_bps tick_drift
v3_state_drift_bps local onchain =
    max
      (max (value_drift_bps local.sqrt_price_x96 onchain.sqrt_price_x96)
        (value_drift_bps local.liquidity onchain.liquidity))
      (tick_drift local.tick onchain.tick)

unfoldable pub drift_of_kind : DexKind → PoolVariant → PoolState → PoolState → ℕ
unfolding reserve_drift_bps v3_state_drift_bps aerodrome_fee_drift_bps
drift_of_kind DexKind.aerodrome PoolVariant.aerodrome_volatile local onchain =
    max (reserve_drift_bps local onchain) (aerodrome_fee_drift_bps local onchain)
drift_of_kind DexKind.aerodrome PoolVariant.aerodrome_slipstream local onchain =
    max (v3_state_drift_bps local onchain) (aerodrome_fee_drift_bps local onchain)
drift_of_kind DexKind.uniswap_v3 PoolVariant.uniswap_v3 local onchain =
    v3_state_drift_bps local onchain
drift_of_kind DexKind.pancake_swap PoolVariant.pancake_v3 local onchain =
    v3_state_drift_bps local onchain
drift_of_kind _ _ local onchain = u64_max

unfoldable pub state_drift_bps : PoolState → PoolState → ℕ
unfolding drift_of_kind
state_drift_bps local onchain = drift_of_kind local.dex local.variant local onchain

-- The fee that a factory reports.
pub data AerodromeFee : Type 0 where
  classic : ℕ → AerodromeFee
  slipstream : ℕ → AerodromeFee

unfoldable pub has_fee_pips : Option ℕ → ℕ → Bool
has_fee_pips none fee_pips = false
has_fee_pips (some known) fee_pips = known == fee_pips

unfoldable pub apply_fee_of_variant : PoolVariant → AerodromeFee → ℕ → PoolState → PoolState × Bool
unfolding has_fee_pips
apply_fee_of_variant PoolVariant.aerodrome_volatile (classic fee_bps) now state =
    if state.fee_bps == fee_bps
    then (state, false)
    else (record state { fee_bps = fee_bps; updated_at = now }, true)
apply_fee_of_variant PoolVariant.aerodrome_slipstream (slipstream fee_pips) now state =
    if has_fee_pips state.fee_pips fee_pips then (state, false) else (
      record state { fee_pips = some fee_pips; fee_bps = fee_pips / 100; updated_at = now },
      true,
    )
apply_fee_of_variant _ _ now state = (state, false)

unfoldable pub apply_aerodrome_fee : AerodromeFee → ℕ → PoolState → PoolState × Bool
unfolding apply_fee_of_variant
apply_aerodrome_fee fee now state = apply_fee_of_variant state.variant fee now state
