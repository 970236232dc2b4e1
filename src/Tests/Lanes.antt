-- ===== src/Tests/Lanes.antt =====
-- The lanes of crates/execution-manager at small inputs.
use dexmoney.Prelude.{ℕ, ◌≤◌, ◌<◌, ◌≡◌, ◌⊎◌, refl, ok, arith, [], ◌∷◌, none, some}
use dexmoney.Common.Transaction.{EoaLaneState, EoaLaneStatus}
use dexmoney.Execution.Lane.{new, mark_submitted}
use dexmoney.Execution.Fees.{Eip1559FeeSuggestion, aggressive_fees, apply_bps, bump_fee}
use dexmoney.Execution.Fees.Order.{bump_fee-exceeds, aggressive_fees-ordered}
use dexmoney.Execution.Handler.{Settings, Services, pass_on, branch}
use dexmoney.Execution.Pending.{
  is_empty, handle_pending_lane, replace_pending_transaction, replaceable,
  aggressive_fee_suggestion,
}
use dexmoney.Execution.Pending.Results.{Submission}
use dexmoney.Execution.Pending.Transitions.{Held, Outcome}
use dexmoney.Execution.Pending.Outcome.{handle_pending_lane-Outcome}
use dexmoney.Execution.Pending.Replacement.{replacement_bid}
use dexmoney.Execution.Pending.Life.{
  desk_of, Lives, opened, sent, Tracked, Lives-Tracked, pending-never-Blocked,
}

abbrev settings : Settings
settings = record {
  executor_contract = some 9;
  execution_min_priority_fee_wei = 3;
  execution_priority_fee_multiplier_bps = 10_000;
  execution_max_fee_multiplier_bps = 20_000;
  execution_pending_replacement_blocks = 1;
  execution_replacement_fee_bump_bps = 15_000;
  execution_max_replacements = 4;
}

abbrev suggested : Eip1559FeeSuggestion
suggested = record { base_fee_per_gas = 100; max_fee_per_gas = 202; max_priority_fee_per_gas = 2 }

-- The transaction has no receipt and its nonce is open, three blocks after it was sent.
abbrev services : Services
services = record {
  get_transaction_receipt = λ tx. ok none;
  confirmed_transaction_count = ok 7;
  pending_transaction_count = ok 8;
  get_balance = ok 1_000;
  get_block_number = ok 103;
  submission_block_number = ok 103;
  suggested_eip1559_fee_details = ok suggested;
  sign_and_send = λ executor calldata nonce gas fee priority. ok 77;
  record_transaction = λ r. ok tt;
  simulation_calldata = λ id. ok (some (1 ∷ []));
  set_lane_state = λ s. ok tt;
  extract_executed_profit = λ raw. none;
}

abbrev lane : EoaLaneState
lane = mark_submitted 11 (some 12) 13 14 7 100 350_000 300 5 (new 1)

lane-Held : Held lane
unfolding mark_submitted
lane-Held = record { tx = (13, refl); opportunity = (11, refl); nonce = (7, refl) }

lane-Lives : Lives settings lane
lane-Lives = sent 11 (some 12) 13 14 7 100 350_000 300 5 (new 1) (opened 1)

lane_pending : lane.status ≡ EoaLaneStatus.pending
unfolding mark_submitted
lane_pending = refl

handle_pending_lane-Outcome_example :
    Outcome services settings lane (handle_pending_lane services settings (desk_of lane)).0.lane
handle_pending_lane-Outcome_example =
    handle_pending_lane-Outcome services settings (desk_of lane) lane-Held

Lives-Tracked_example : Tracked settings lane
Lives-Tracked_example = Lives-Tracked settings lane-Lives

pending-never-Blocked_example :
    let s = (handle_pending_lane services settings (desk_of lane)).0.lane in
    (s.status ≡ EoaLaneStatus.pending) ⊎ (s.status ≡ EoaLaneStatus.idle)
pending-never-Blocked_example = pending-never-Blocked settings services lane-Lives lane_pending

abbrev submission : Submission
submission = record {
  tx_hash = 77;
  nonce = 7;
  simulation_id = none;
  executor_contract = 14;
  submitted_block = 103;
  gas_limit = 350_000;
  max_fee_per_gas = 451;
  max_priority_fee_per_gas = 8;
}

resent :
    (replace_pending_transaction services settings 14 (1 ∷ []) 7 350_000 300 5 (desk_of lane)).1
    ≡ ok submission
unfolding replace_pending_transaction replaceable aggressive_fee_suggestion aggressive_fees
    apply_bps bump_fee is_empty pass_on branch
resent = refl

replacement_bid_example :
    ◌≡◌ {A = ℕ} 7 7
    × ◌≡◌ {A = ℕ} 350_000 350_000
    × (bump_fee 300 15_000 ≤ 451)
    × (bump_fee 5 15_000 ≤ 8)
    × ◌≤◌ 8 451
replacement_bid_example =
    replacement_bid services settings 14 (1 ∷ []) 7 350_000 300 5 (desk_of lane) submission
      (omega arith) (omega arith) resent

bump_fee-exceeds_example : 300 < bump_fee 300 15_000
bump_fee-exceeds_example = bump_fee-exceeds 300 15_000 (omega arith) (omega arith)

aggressive_fees-ordered_example :
    (aggressive_fees 3 10_000 20_000 suggested).max_priority_fee_per_gas
    ≤ (aggressive_fees 3 10_000 20_000 suggested).max_fee_per_gas
aggressive_fees-ordered_example = aggressive_fees-ordered 3 10_000 20_000 suggested (omega arith)
