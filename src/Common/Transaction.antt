-- ===== src/Common/Transaction.antt =====
-- crates/common/src/types.rs: transaction results and the state of an account's lane. A B256 is its
-- number; a receipt's JSON is its text.
use Prim.Native.String.{String}
use dexmoney.Prelude.{ℕ, Option}
use dexmoney.Common.Pool.{Address}
use dexmoney.Common.Opportunity.{Uuid}

abbrev pub B256 : Type 0
B256 = ℕ

pub data TxStatus : Type 0 where
  pending confirmed reverted dropped : TxStatus

-- The texts that the sources format as a revert reason.
pub data RevertReason : Type 0 where
  replaced_by : B256 → RevertReason
  nonce_consumed : (nonce confirmed_nonce : ℕ) → RevertReason
  transaction_reverted : RevertReason

pub record TxResult : Type 0 where
  pub opportunity_id : Uuid
  pub simulation_id : Option Uuid
  pub eoa : Address
  pub tx_hash : Option B256
  pub nonce : ℕ
  pub status : TxStatus
  pub realized_profit : Option ℕ
  pub gas_used : Option ℕ
  pub effective_gas_price : Option ℕ
  pub revert_reason : Option RevertReason
  pub receipt_json : Option String

pub data EoaLaneStatus : Type 0 where
  idle pending blocked cooldown : EoaLaneStatus

pub record EoaLaneState : Type 0 where
  pub address : Address
  pub local_nonce : ℕ
  pub confirmed_nonce : ℕ
  pub pending_tx : Option B256
  pub pending_executor_contract : Option Address
  pub pending_opportunity_id : Option Uuid
  pub pending_simulation_id : Option Uuid
  pub pending_nonce : Option ℕ
  pub pending_submitted_block : Option ℕ
  pub pending_replacement_count : ℕ
  pub pending_gas_limit : Option ℕ
  pub pending_max_fee_per_gas : Option ℕ
  pub pending_max_priority_fee_per_gas : Option ℕ
  pub eth_balance : ℕ
  pub status : EoaLaneStatus
