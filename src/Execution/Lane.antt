-- ===== src/Execution/Lane.antt =====
-- crates/execution-manager/src/eoa_lane.rs: the operations on the state of an account's lane.
use dexmoney.Prelude.{ℕ, Option, none, some}
use dexmoney.Word.{saturating_add, u64_max, u32_max}
use dexmoney.Common.Pool.{Address}
use dexmoney.Common.Opportunity.{Uuid}
use dexmoney.Common.Transaction.{B256, EoaLaneState, EoaLaneStatus}

unfoldable pub new : Address → EoaLaneState
new address = record {
  address = address;
  local_nonce = 0;
  confirmed_nonce = 0;
  pending_tx = none;
  pending_executor_contract = none;
  pending_opportunity_id = none;
  pending_simulation_id = none;
  pending_nonce = none;
  pending_submitted_block = none;
  pending_replacement_count = 0;
  pending_gas_limit = none;
  pending_max_fee_per_gas = none;
  pending_max_priority_fee_per_gas = none;
  eth_balance = 0;
  status = EoaLaneStatus.idle;
}

unfoldable pub mark_submitted :
    Uuid → Option Uuid → B256 → Address → ℕ → ℕ → ℕ → ℕ → ℕ → EoaLaneState → EoaLaneState
mark_submitted opportunity_id simulation_id tx_hash executor_contract nonce submitted_block
      gas_limit max_fee_per_gas max_priority_fee_per_gas state =
    record state {
      pending_tx = some tx_hash;
      pending_executor_contract = some executor_contract;
      pending_opportunity_id = some opportunity_id;
      pending_simulation_id = simulation_id;
      pending_nonce = some nonce;
      pending_submitted_block = some submitted_block;
      pending_replacement_count = 0;
      pending_gas_limit = some gas_limit;
      pending_max_fee_per_gas = some max_fee_per_gas;
      pending_max_priority_fee_per_gas = some max_priority_fee_per_gas;
      local_nonce = saturating_add u64_max nonce 1;
      status = EoaLaneStatus.pending;
    }

unfoldable pub mark_replaced : B256 → ℕ → ℕ → ℕ → ℕ → EoaLaneState → EoaLaneState
mark_replaced tx_hash submitted_block gas_limit max_fee_per_gas max_priority_fee_per_gas state =
    record state {
      pending_tx = some tx_hash;
      pending_submitted_block = some submitted_block;
      pending_replacement_count = saturating_add u32_max state.pending_replacement_count 1;
      pending_gas_limit = some gas_limit;
      pending_max_fee_per_gas = some max_fee_per_gas;
      pending_max_priority_fee_per_gas = some max_priority_fee_per_gas;
      status = EoaLaneStatus.pending;
    }

unfoldable pub mark_confirmed : ℕ → EoaLaneState → EoaLaneState
mark_confirmed confirmed_nonce state = record state {
  confirmed_nonce = confirmed_nonce;
  pending_tx = none;
  pending_executor_contract = none;
  pending_opportunity_id = none;
  pending_simulation_id = none;
  pending_nonce = none;
  pending_submitted_block = none;
  pending_replacement_count = 0;
  pending_gas_limit = none;
  pending_max_fee_per_gas = none;
  pending_max_priority_fee_per_gas = none;
  status = EoaLaneStatus.idle;
}

unfoldable pub clear_consumed_pending : ℕ → ℕ → ℕ → EoaLaneState → EoaLaneState
clear_consumed_pending confirmed_nonce local_nonce eth_balance state =
    record (mark_confirmed confirmed_nonce state) {
      local_nonce = local_nonce;
      eth_balance = eth_balance;
    }

unfoldable pub mark_blocked : EoaLaneState → EoaLaneState
mark_blocked state = record state { status = EoaLaneStatus.blocked }

unfoldable pub mark_cooldown : EoaLaneState → EoaLaneState
mark_cooldown state = record state { status = EoaLaneStatus.cooldown }
