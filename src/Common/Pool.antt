-- ===== src/Common/Pool.antt =====
-- crates/common/src/types.rs: pools, ticks and quotes. An address is its 160-bit number and a time
-- is a number of nanoseconds; the sources only compare them.
use Prim.Native.String.{String}
use dexmoney.Prelude.{ℕ, Bool, Option, max}
use dexmoney.Prelude.Int.{ℤ}

abbrev pub Address : Type 0
Address = ℕ

pub record PoolId : Type 0 where
  pub chain_id : ℕ
  pub address : Address

pub data DexKind : Type 0 where
  aerodrome uniswap_v3 pancake_swap uniswap_v4 balancer : DexKind

pub data PoolVariant : Type 0 where
  aerodrome_volatile aerodrome_slipstream uniswap_v3 pancake_v3 uniswap_v4 balancer_v3 : PoolVariant

pub record PoolState : Type 0 where
  pub pool_id : PoolId
  pub dex : DexKind
  pub variant : PoolVariant
  pub factory_address : Option Address
  pub token0 : Address
  pub token1 : Address
  pub token0_decimals : Option ℕ
  pub token1_decimals : Option ℕ
  pub fee_bps : ℕ
  pub fee_pips : Option ℕ
  pub pool_key_fee_pips : Option ℕ
  pub hooks_address : Option Address
  pub stable : Option Bool
  pub reserve0 : Option ℕ
  pub reserve1 : Option ℕ
  pub balancer_model : Option String
  pub balancer_weight0 : Option ℕ
  pub balancer_weight1 : Option ℕ
  pub balancer_scaling_factor0 : Option ℕ
  pub balancer_scaling_factor1 : Option ℕ
  pub balancer_token_rate0 : Option ℕ
  pub balancer_token_rate1 : Option ℕ
  pub balancer_swap_fee_percentage : Option ℕ
  pub sqrt_price_x96 : Option ℕ
  pub liquidity : Option ℕ
  pub tick : Option ℤ
  pub tick_spacing : Option ℤ
  pub block_number : ℕ
  pub valid_through_block : ℕ
  pub updated_at : ℕ

pub record TickState : Type 0 where
  pub pool_id : PoolId
  pub tick : ℤ
  pub liquidity_net : ℤ
  pub liquidity_gross : ℕ
  pub block_number : ℕ
  pub updated_at : ℕ

pub record QuoteResult : Type 0 where
  pub amount_in : ℕ
  pub amount_out : ℕ
  pub gas_estimate : Option ℕ

unfoldable pub effective_valid_through_block : PoolState → ℕ
effective_valid_through_block state = max state.valid_through_block state.block_number
