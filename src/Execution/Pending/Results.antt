-- ===== src/Execution/Pending/Results.antt =====
-- crates/execution-manager/src/tx_manager.rs: what is recorded of a transaction.
use dexmoney.Prelude.{ℕ, Option, none, some, if◌then◌else◌}
use dexmoney.Common.Pool.{Address}
use dexmoney.Common.Opportunity.{Uuid, Candidate}
use dexmoney.Common.Transaction.{
  B256, TxResult, TxStatus, replaced_by, nonce_consumed, transaction_reverted,
}
use dexmoney.Execution.Handler.{TxReceipt, Services}

pub record Submission : Type 0 where
  pub tx_hash : B256
  pub nonce : ℕ
  pub simulation_id : Option Uuid
  pub executor_contract : Address
  pub submitted_block : ℕ
  pub gas_limit : ℕ
  pub max_fee_per_gas : ℕ
  pub max_priority_fee_per_gas : ℕ

unfoldable pub pending_tx_result : Candidate → Address → Submission → TxResult
pending_tx_result candidate eoa submission = record {
  opportunity_id = candidate.id;
  simulation_id = submission.simulation_id;
  eoa = eoa;
  tx_hash = some submission.tx_hash;
  nonce = submission.nonce;
  status = TxStatus.pending;
  realized_profit = none;
  gas_used = none;
  effective_gas_price = none;
  revert_reason = none;
  receipt_json = none;
}

unfoldable pub pending_replacement_tx_result : Uuid → Option Uuid → Address → Submission → TxResult
pending_replacement_tx_result opportunity_id simulation_id eoa submission = record {
  opportunity_id = opportunity_id;
  simulation_id = simulation_id;
  eoa = eoa;
  tx_hash = some submission.tx_hash;
  nonce = submission.nonce;
  status = TxStatus.pending;
  realized_profit = none;
  gas_used = none;
  effective_gas_price = none;
  revert_reason = none;
  receipt_json = none;
}

unfoldable pub dropped_replaced_tx_result :
    Uuid → Option Uuid → Address → B256 → ℕ → B256 → TxResult
dropped_replaced_tx_result opportunity_id simulation_id eoa old_tx_hash nonce new_tx_hash = record {
  opportunity_id = opportunity_id;
  simulation_id = simulation_id;
  eoa = eoa;
  tx_hash = some old_tx_hash;
  nonce = nonce;
  status = TxStatus.dropped;
  realized_profit = none;
  gas_used = none;
  effective_gas_price = none;
  revert_reason = some (replaced_by new_tx_hash);
  receipt_json = none;
}

unfoldable pub dropped_consumed_nonce_tx_result :
    Uuid → Option Uuid → Address → B256 → ℕ → ℕ → TxResult
dropped_consumed_nonce_tx_result opportunity_id simulation_id eoa tx_hash nonce confirmed_nonce =
    record {
      opportunity_id = opportunity_id;
      simulation_id = simulation_id;
      eoa = eoa;
      tx_hash = some tx_hash;
      nonce = nonce;
      status = TxStatus.dropped;
      realized_profit = none;
      gas_used = none;
      effective_gas_price = none;
      revert_reason = some (nonce_consumed nonce confirmed_nonce);
      receipt_json = none;
    }

unfoldable pub receipt_tx_result :
    Services → Uuid → Option Uuid → Address → ℕ → TxReceipt → TxResult
receipt_tx_result services opportunity_id simulation_id eoa nonce receipt = record {
  opportunity_id = opportunity_id;
  simulation_id = simulation_id;
  eoa = eoa;
  tx_hash = some receipt.tx_hash;
  nonce = nonce;
  status = if receipt.success then TxStatus.confirmed else TxStatus.reverted;
  realized_profit = if receipt.success then services.extract_executed_profit receipt.raw else none;
  gas_used = receipt.gas_used;
  effective_gas_price = receipt.effective_gas_price;
  revert_reason = if receipt.success then none else some transaction_reverted;
  receipt_json = some receipt.raw;
}
