-- ===== src/Execution/Pending.antt =====
-- crates/execution-manager: the handling of a lane with a transaction under way, `handle_pending_lane`,
-- `clear_lane_if_pending_nonce_consumed`, `maybe_replace_pending_tx` and `sync_idle_lane` of
-- src/main.rs and the replacement and the transaction results of src/tx_manager.rs. What a test asks
-- first is its own function where the rest goes on from it.
pub mod Results
pub mod Replacement
pub mod Transitions
pub mod Outcome
pub mod Life
use Prim.Native.String.{String}
use dexmoney.Prelude.{
  ℕ, Bool, true, false, Option, none, some, Result, ok, err, List, [], ◌∷◌, ◌-◌, max, ltb, leb,
  ◌==◌,
}
use dexmoney.Common.Pool.{Address}
use dexmoney.Common.Opportunity.{Uuid}
use dexmoney.Common.Transaction.{B256, EoaLaneState, EoaLaneStatus}
use dexmoney.Execution.Lane.{mark_replaced, mark_confirmed, mark_blocked, clear_consumed_pending}
use dexmoney.Execution.Fees.{Eip1559FeeSuggestion, aggressive_fees, bump_fee}
use dexmoney.Execution.Handler.{
  TxReceipt, Settings, Services, Handler, done, bail, ask, change, record_transaction, read_lane,
  attempt, or_return, branch, set_lane_state, ◌>>=◌,
}
use dexmoney.Execution.Pending.Results.{
  Submission, pending_replacement_tx_result, dropped_replaced_tx_result,
  dropped_consumed_nonce_tx_result, receipt_tx_result,
}

unfoldable pub is_empty : List ℕ → Bool
is_empty [] = true
is_empty (b ∷ bs) = false

module _ (services : Services) (settings : Settings) where
  unfoldable pub aggressive_fee_suggestion : Handler Eip1559FeeSuggestion
  aggressive_fee_suggestion = do
    suggested ← ask services.suggested_eip1559_fee_details
    done (
        aggressive_fees settings.execution_min_priority_fee_wei
          settings.execution_priority_fee_multiplier_bps settings.execution_max_fee_multiplier_bps
          suggested)

  -- The two guards at the head of a replacement.
  unfoldable pub replaceable : Address → List ℕ → Handler (Unit {0})
  replaceable executor calldata =
      branch (executor == 0) (bail "pending executor contract is not configured")
        (branch (is_empty calldata) (bail "replacement calldata is empty") (done tt))

  unfoldable pub replace_pending_transaction : Address → List ℕ → ℕ → ℕ → ℕ → ℕ → Handler Submission
  replace_pending_transaction executor calldata nonce gas_limit previous_max_fee_per_gas
        previous_max_priority_fee_per_gas =
      do
        checked ← replaceable executor calldata
        suggested ← aggressive_fee_suggestion
        let max_fee_per_gas =
            max suggested.max_fee_per_gas
              (bump_fee previous_max_fee_per_gas settings.execution_replacement_fee_bump_bps)
        let max_priority_fee_per_gas =
            max suggested.max_priority_fee_per_gas (
              bump_fee previous_max_priority_fee_per_gas
                settings.execution_replacement_fee_bump_bps)
        submitted_block ← ask services.submission_block_number
        tx_hash ← ask (
            services.sign_and_send executor calldata nonce gas_limit max_fee_per_gas
              max_priority_fee_per_gas)
        done (record {
          tx_hash = tx_hash;
          nonce = nonce;
          simulation_id = none;
          executor_contract = executor;
          submitted_block = submitted_block;
          gas_limit = gas_limit;
          max_fee_per_gas = max_fee_per_gas;
          max_priority_fee_per_gas = max_priority_fee_per_gas;
        })

  unfoldable pub sync_idle_lane : Handler (Unit {0})
  sync_idle_lane = do
    confirmed_nonce ← ask services.confirmed_transaction_count
    pending_nonce ← ask services.pending_transaction_count
    noted ←
        change
          (λ lane. record lane { confirmed_nonce = confirmed_nonce; local_nonce = pending_nonce })
    eth_balance ← ask services.get_balance
    change (λ lane. record lane { eth_balance = eth_balance; status = EoaLaneStatus.idle })

  -- After the test that the nonce is consumed.
  unfoldable pub clear_lane : B256 → Uuid → Option Uuid → ℕ → ℕ → EoaLaneState → Handler Bool
  clear_lane tx_hash opportunity_id simulation_id nonce confirmed_nonce lane = do
    pending_nonce ← ask services.pending_transaction_count
    eth_balance ← ask services.get_balance
    dropped ← record_transaction services (
        dropped_consumed_nonce_tx_result opportunity_id simulation_id lane.address tx_hash nonce
          confirmed_nonce)
    cleared ← change (clear_consumed_pending confirmed_nonce pending_nonce eth_balance)
    kept ← set_lane_state services
    done true

  unfoldable pub clear_lane_if_pending_nonce_consumed :
      B256 → Uuid → Option Uuid → ℕ → EoaLaneState → Handler Bool
  clear_lane_if_pending_nonce_consumed tx_hash opportunity_id simulation_id nonce lane = do
    confirmed_nonce ← ask services.confirmed_transaction_count
    branch (leb confirmed_nonce nonce) (done false)
        (clear_lane tx_hash opportunity_id simulation_id nonce confirmed_nonce lane)

  -- What follows a replacement that was sent, or one that failed.
  unfoldable pub note_replacement :
      Uuid → Uuid → B256 → ℕ → EoaLaneState → Result String Submission → Handler (Unit {0})
  note_replacement opportunity_id simulation_id old_tx_hash nonce lane (err message) = done tt
  note_replacement opportunity_id simulation_id old_tx_hash nonce lane (ok submission) = do
    dropped ← record_transaction services (
        dropped_replaced_tx_result opportunity_id (some simulation_id) lane.address old_tx_hash
          nonce submission.tx_hash)
    entered ←
        record_transaction services (
          pending_replacement_tx_result opportunity_id (some simulation_id) lane.address submission)
    replaced ← change (
        mark_replaced submission.tx_hash submission.submitted_block submission.gas_limit
          submission.max_fee_per_gas submission.max_priority_fee_per_gas)
    set_lane_state services

  -- `pending_executor_contract.or(settings.executor_contract).unwrap_or(Address::ZERO)`
  unfoldable pub replacement_executor : EoaLaneState → Address
  replacement_executor lane = elim lane.pending_executor_contract [
    | some executor ↦ executor
    | none ↦ elim settings.executor_contract [ some executor ↦ executor | none ↦ 0 ]
  ]

  -- After the test that the transaction has waited long enough.
  unfoldable pub replace_lane : EoaLaneState → Handler (Unit {0})
  replace_lane lane = or_return lane.pending_opportunity_id λ opportunity_id.
      or_return lane.pending_simulation_id λ simulation_id. or_return lane.pending_nonce λ nonce.
        or_return lane.pending_gas_limit λ gas_limit.
          or_return lane.pending_max_fee_per_gas λ previous_max_fee_per_gas.
            or_return lane.pending_max_priority_fee_per_gas λ previous_max_priority_fee_per_gas.
              or_return lane.pending_tx λ old_tx_hash.
                ask (services.simulation_calldata simulation_id) >>= λ known.
                or_return known λ calldata.
                  attempt (
                    replace_pending_transaction (replacement_executor lane) calldata nonce gas_limit
                      previous_max_fee_per_gas previous_max_priority_fee_per_gas)
                  >>= λ sent.
                      note_replacement opportunity_id simulation_id old_tx_hash nonce lane sent

  unfoldable pub maybe_replace_pending_tx : EoaLaneState → Handler (Unit {0})
  maybe_replace_pending_tx lane =
      branch (leb settings.execution_max_replacements lane.pending_replacement_count) (done tt) (
        or_return lane.pending_submitted_block λ submitted_block.
          ask services.get_block_number >>= λ current_block.
          branch
            (ltb (current_block - submitted_block) settings.execution_pending_replacement_blocks)
            (done tt) (replace_lane lane))

  unfoldable pub block_lane : Handler (Option Bool)
  block_lane = do blocked ← change mark_blocked; kept ← set_lane_state services; done none

  -- Without a receipt.
  unfoldable pub await_receipt : B256 → Uuid → ℕ → EoaLaneState → Handler (Option Bool)
  await_receipt tx_hash opportunity_id nonce lane = do
    consumed ←
        clear_lane_if_pending_nonce_consumed tx_hash opportunity_id lane.pending_simulation_id nonce
          lane
    branch consumed (done none) (do tried ← maybe_replace_pending_tx lane; done none)

  -- With one: the answer is the outcome where the transaction had been simulated.
  unfoldable pub settle : Uuid → ℕ → EoaLaneState → TxReceipt → Handler (Option Bool)
  settle opportunity_id nonce lane receipt = do
    entered ← record_transaction services (
        receipt_tx_result services opportunity_id lane.pending_simulation_id lane.address nonce
          receipt)
    confirmed_nonce ← ask services.confirmed_transaction_count
    confirmed ← change (mark_confirmed confirmed_nonce)
    pending_nonce ← ask services.pending_transaction_count
    advanced ← change (λ l. record l { local_nonce = pending_nonce })
    eth_balance ← ask services.get_balance
    funded ← change (λ l. record l { eth_balance = eth_balance })
    kept ← set_lane_state services
    done (elim lane.pending_simulation_id [ some id ↦ some receipt.success | none ↦ none ])

  unfoldable pub after_receipt :
      B256 → Uuid → ℕ → EoaLaneState → Option TxReceipt → Handler (Option Bool)
  after_receipt tx_hash opportunity_id nonce lane none =
      await_receipt tx_hash opportunity_id nonce lane
  after_receipt tx_hash opportunity_id nonce lane (some receipt) =
      settle opportunity_id nonce lane receipt

  unfoldable pub follow_transaction : B256 → Uuid → ℕ → EoaLaneState → Handler (Option Bool)
  follow_transaction tx_hash opportunity_id nonce lane = do
    known ← ask (services.get_transaction_receipt tx_hash)
    after_receipt tx_hash opportunity_id nonce lane known

  -- The fields of the lane that a transaction under way needs.
  unfoldable pub follow_lane :
      Option B256 → Option Uuid → Option ℕ → EoaLaneState → Handler (Option Bool)
  follow_lane (some tx_hash) (some opportunity_id) (some nonce) lane =
      follow_transaction tx_hash opportunity_id nonce lane
  follow_lane (some tx_hash) (some opportunity_id) none lane = block_lane
  follow_lane (some tx_hash) none pending_nonce lane = block_lane
  follow_lane none opportunity_id pending_nonce lane = block_lane

  unfoldable pub handle_pending_lane : Handler (Option Bool)
  handle_pending_lane = do
    lane ← read_lane
    follow_lane lane.pending_tx lane.pending_opportunity_id lane.pending_nonce lane
