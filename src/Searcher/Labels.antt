-- ===== src/Searcher/Labels.antt =====
-- crates/searcher/src/strategy.rs: the steps and the names of a cycle's path. An address is shown with its
-- 40 hexadecimal digits.
use Prim.Native.String.{String, ◌++◌}
use dexmoney.Prelude.{
  ℕ, zero, suc, ◌-◌, ◌+◌, ◌*◌, Option, none, some, and_then, unwrap_or, ◌/◌, ◌%◌, if◌then◌else◌,
  ◌==◌,
}
use dexmoney.Prelude.Int.{ℤ, pos, negsuc}
use dexmoney.Prelude.Texts.{hex_digits, letter}
use dexmoney.Word.{u256_mod}
use dexmoney.Common.Pool.{Address, DexKind, PoolState, PoolVariant}
use dexmoney.Common.Opportunity.{SwapStep}

-- The last six digits of an address.
unfoldable pub short_token : Address → String
short_token token = hex_digits 6 token

unfoldable pub address_text : Address → String
address_text address = "0x" ++ hex_digits 40 address

unfoldable pub label_prefix : DexKind → PoolVariant → String
label_prefix DexKind.aerodrome PoolVariant.aerodrome_volatile = "aero-classic-"
label_prefix DexKind.aerodrome PoolVariant.aerodrome_slipstream = "aero-slipstream-"
label_prefix DexKind.uniswap_v3 PoolVariant.uniswap_v3 = "uni-v3-"
label_prefix DexKind.pancake_swap PoolVariant.pancake_v3 = "pancake-v3-"
label_prefix DexKind.uniswap_v4 PoolVariant.uniswap_v4 = "uni-v4-"
label_prefix DexKind.balancer PoolVariant.balancer_v3 = "balancer-v3-"
label_prefix _ _ = "pool-"

unfoldable pub pool_label : PoolState → String
unfolding label_prefix
pool_label state = label_prefix state.dex state.variant ++ hex_digits 6 state.pool_id.address

-- A word of 32 bytes as 64 digits; a negative number in two's complement.
unfoldable pub encode_u256 : ℕ → String
encode_u256 value = hex_digits 64 value

unfoldable pub encode_i256 : ℤ → String
unfolding encode_u256
encode_i256 (pos value) = encode_u256 value
encode_i256 (negsuc n) = encode_u256 (u256_mod - (n + 1))

unfoldable pub encode_uniswap_v4_adapter_data : Address → Address → ℕ → ℤ → Address → String
unfolding encode_u256 encode_i256
encode_uniswap_v4_adapter_data currency0 currency1 fee tick_spacing hooks =
    encode_u256 currency0
    ++ encode_u256 currency1
    ++ encode_u256 fee
    ++ encode_i256 tick_spacing
    ++ encode_u256 hooks
    ++ encode_u256 0
    ++ encode_u256 (7 * 32)
    ++ encode_u256 0

abbrev or_option {ℓ} : {A : Type ℓ} → Option A → Option A → Option A
or_option none b = b
or_option (some a) b = some a

unfoldable pub adapter_of_variant : PoolVariant → PoolState → Option String
unfolding encode_uniswap_v4_adapter_data
adapter_of_variant PoolVariant.uniswap_v4 state =
    and_then (or_option state.pool_key_fee_pips state.fee_pips) (λ pool_key_fee.
      and_then state.tick_spacing (λ tick_spacing. some (
        "0x"
        ++ encode_uniswap_v4_adapter_data state.token0 state.token1 pool_key_fee tick_spacing
            (unwrap_or state.hooks_address 0))))
adapter_of_variant _ state = none

unfoldable pub adapter_data_from_pool : PoolState → Option String
unfolding adapter_of_variant
adapter_data_from_pool state = adapter_of_variant state.variant state

unfoldable pub swap_step_from_pool : PoolState → Address → Address → SwapStep
swap_step_from_pool state token_in token_out = record {
  dex = state.dex;
  variant = some state.variant;
  factory_address = state.factory_address;
  pool = state.pool_id.address;
  token_in = token_in;
  token_out = token_out;
  fee_bps = some state.fee_bps;
  pool_key_fee_pips = state.pool_key_fee_pips;
  hooks_address = state.hooks_address;
  stable = state.stable;
  tick_spacing = state.tick_spacing;
  adapter_data = adapter_data_from_pool state;
}

-- A number in base 10, for the number of edges of a cycle.
unfoldable pub decimal : ℕ → ℕ → String
decimal zero n = ""
decimal (suc digits) n =
    let more = decimal digits (n / 10) in
    (if n / 10 == 0 then "" else more) ++ letter "0123456789" (n % 10)
