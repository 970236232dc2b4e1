-- ===== src/Execution/Pending/Transitions.antt =====
-- The transitions of a pending lane that its handling, `handle_pending_lane` of
-- crates/execution-manager/src/main.rs, may make.
use Prim.Native.String.{String}
use dexmoney.Prelude.{ℕ, Result, none, some, ok, ◌≡◌, ◌-◌, ◌⊎◌, ◌<◌, ◌≤◌}
use dexmoney.Common.Transaction.{B256, EoaLaneState}
use dexmoney.Execution.Lane.{mark_replaced, mark_confirmed, clear_consumed_pending}
use dexmoney.Execution.Fees.{bump_fee}
use dexmoney.Execution.Handler.{TxReceipt, Settings, Services}

-- A lane with a transaction under way knows all that its handling asks for.
pub record Held (lane : EoaLaneState) : Type 0 where
  pub tx : (a : B256) × (lane.pending_tx ≡ some a)
  pub opportunity : (a : ℕ) × (lane.pending_opportunity_id ≡ some a)
  pub nonce : (a : ℕ) × (lane.pending_nonce ≡ some a)

-- The lane's transaction has no receipt.
pub record Unmined (services : Services) (s : EoaLaneState) (nonce : ℕ) : Type 0 where
  pub hash : B256
  pub tx : s.pending_tx ≡ some hash
  pub no_receipt : services.get_transaction_receipt hash ≡ ok none
  pub at : s.pending_nonce ≡ some nonce

-- The chain's count of transactions has not passed the nonce.
pub record Unconsumed (services : Services) (nonce : ℕ) : Type 0 where
  pub count : ℕ
  pub counted : services.confirmed_transaction_count ≡ ok count
  pub behind : count ≤ nonce

-- The lane's transaction has waited as many blocks as are asked for, and may be replaced once more.
pub record Due (services : Services) (settings : Settings) (s : EoaLaneState) : Type 0 where
  pub submitted_block : ℕ
  pub current_block : ℕ
  pub submitted : s.pending_submitted_block ≡ some submitted_block
  pub current : services.get_block_number ≡ ok current_block
  pub waited : settings.execution_pending_replacement_blocks ≤ current_block - submitted_block
  pub room : s.pending_replacement_count < settings.execution_max_replacements

-- Either as it was or what the service answered.
abbrev pub KeptOr : ℕ → Result String ℕ → ℕ → Type 0
KeptOr old answer new = (new ≡ old) ⊎ (answer ≡ ok new)

-- The lanes that a pending lane `s` may become, and where it may become them.
pub data Outcome (services : Services) (settings : Settings) (s : EoaLaneState)
    : EoaLaneState → Type 0 where
  waiting : Outcome services settings s s
  replaced :
      (tx block gas_limit fee previous priority nonce : ℕ)
      → Unmined services s nonce
      → Unconsumed services nonce
      → Due services settings s
      → s.pending_gas_limit ≡ some gas_limit
      → s.pending_max_fee_per_gas ≡ some previous
      → bump_fee previous settings.execution_replacement_fee_bump_bps ≤ fee
      → Outcome services settings s (mark_replaced tx block gas_limit fee priority s)
  consumed :
      (confirmed_nonce local_nonce eth_balance nonce : ℕ)
      → Unmined services s nonce
      → services.confirmed_transaction_count ≡ ok confirmed_nonce
      → nonce < confirmed_nonce
      → services.pending_transaction_count ≡ ok local_nonce
      → services.get_balance ≡ ok eth_balance
      → Outcome services settings s
          (clear_consumed_pending confirmed_nonce local_nonce eth_balance s)
  confirmed :
      (hash : B256) (receipt : TxReceipt) (confirmed_nonce local_nonce eth_balance : ℕ)
      → s.pending_tx ≡ some hash
      → services.get_transaction_receipt hash ≡ ok (some receipt)
      → services.confirmed_transaction_count ≡ ok confirmed_nonce
      → KeptOr s.local_nonce services.pending_transaction_count local_nonce
      → KeptOr s.eth_balance services.get_balance eth_balance
      → Outcome services settings s (record (mark_confirmed confirmed_nonce s) {
        local_nonce = local_nonce;
        eth_balance = eth_balance;
      })
