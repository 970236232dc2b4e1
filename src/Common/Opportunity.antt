-- ===== src/Common/Opportunity.antt =====
-- crates/common/src/types.rs: paths, candidates and their diagnostics. A Uuid is its number, and a
-- time a number of nanoseconds, which the sources compare and add a life time to.
use Prim.Native.String.{String}
use dexmoney.Prelude.{ℕ, Bool, Option, List, ltb}
use dexmoney.Prelude.Int.{ℤ}
use dexmoney.Common.Pool.{Address, DexKind, PoolVariant}

abbrev pub Uuid : Type 0
Uuid = ℕ

pub record SwapStep : Type 0 where
  pub dex : DexKind
  pub variant : Option PoolVariant
  pub factory_address : Option Address
  pub pool : Address
  pub token_in : Address
  pub token_out : Address
  pub fee_bps : Option ℕ
  pub pool_key_fee_pips : Option ℕ
  pub hooks_address : Option Address
  pub stable : Option Bool
  pub tick_spacing : Option ℤ
  pub adapter_data : Option String

pub record QuoteStepDiagnostics : Type 0 where
  pub step_no : ℕ
  pub mode : String
  pub pool : Address
  pub variant : PoolVariant
  pub source_block : ℕ
  pub valid_through_block : ℕ
  pub state_updated_at : ℕ
  pub token_in : Address
  pub token_out : Address
  pub amount_in : ℕ
  pub amount_out_raw : ℕ
  pub amount_out : ℕ
  pub fee_bps : ℕ
  pub fee_pips : Option ℕ
  pub stable : Option Bool
  pub tick_spacing : Option ℤ
  pub sqrt_price_x96 : Option ℕ
  pub liquidity : Option ℕ
  pub tick : Option ℤ
  pub reserve0 : Option ℕ
  pub reserve1 : Option ℕ
  pub tick_count : ℕ
  pub ticks_used : ℕ
  pub crossed_ticks : ℕ
  pub tick_range_exhausted : Bool

pub record QuoteDiagnostics : Type 0 where
  pub modes : List String
  pub ticks_used : ℕ
  pub crossed_ticks : ℕ
  pub tick_range_exhausted : Bool
  pub v3_pools_without_ticks : ℕ
  pub steps : List QuoteStepDiagnostics

pub record ArbPath : Type 0 where
  pub name : String
  pub steps : List SwapStep
  pub diagnostics : Option QuoteDiagnostics

pub data OpportunityStatus : Type 0 where
  created rejected simulated submitted confirmed reverted expired : OpportunityStatus

pub record Candidate : Type 0 where
  pub id : Uuid
  pub created_at : ℕ
  pub expires_at : ℕ
  pub block_number : ℕ
  pub strategy : String
  pub token_in : Address
  pub amount_in : ℕ
  pub expected_amount_out : ℕ
  pub expected_profit : ℕ
  pub min_profit : ℕ
  pub price_impact_bps : ℕ
  pub path : ArbPath
  pub status : OpportunityStatus

unfoldable pub is_expired : Candidate → ℕ → Bool
is_expired candidate now = ltb candidate.expires_at now
