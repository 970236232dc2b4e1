-- ===== src/Execution/Pending/Replacement.antt =====
-- The replacement of a transaction under way: the run that sends it, and what it bids.
use dexmoney.Prelude.{ℕ, ok, ◌≡◌, refl, ◌≤◌, arith}
use dexmoney.Common.Pool.{Address}
use dexmoney.Word.{u256_max}
use dexmoney.Execution.Fees.{bump_fee}
use dexmoney.Execution.Fees.Order.{aggressive_fees-ordered, bump_fee_mono}
use dexmoney.Execution.Handler.{Settings, Services, Desk}
use dexmoney.Execution.Pending.{replace_pending_transaction}
use dexmoney.Execution.Pending.Results.{Submission}
use dexmoney.Prelude.{List, Bool-cases, inl, inr, ◌==◌}
use dexmoney.Execution.Fees.{Eip1559FeeSuggestion}
use dexmoney.Execution.Handler.{
  Tries, failed, succeeded, tried_value, pass_on-Tries, ask-Tries, branch,
}
use dexmoney.Execution.Pending.{is_empty, replaceable, aggressive_fee_suggestion}

module _ (services : Services) (settings : Settings) where
  -- A bid of at least the bumped fee, under the gas limit of the lane.
  abbrev pub Outbids : ℕ → ℕ → Submission → Type 0
  Outbids gas_limit previous sent =
      (sent.gas_limit ≡ gas_limit)
      × (bump_fee previous settings.execution_replacement_fee_bump_bps ≤ sent.max_fee_per_gas)

  replaceable-Tries :
      (executor : Address) (calldata : List ℕ) (desk : Desk)
      → Tries desk
          (λ (a : Unit {0}). Unit {0})
          (replaceable services settings executor calldata desk)
  unfolding replaceable branch
  replaceable-Tries executor calldata desk = elim (Bool-cases (executor == 0)) [
    | inl e ↦ rw e (failed _)
    | inr e ↦ elim (Bool-cases (is_empty calldata)) [
      | inl e' ↦ rw (e, e') (failed _)
      | inr e' ↦ rw (e, e') (succeeded tt tt)
    ]
  ]

  aggressive_fee_suggestion-Tries :
      (desk : Desk)
      → Tries desk
          (λ (a : Eip1559FeeSuggestion). Unit {0})
          (aggressive_fee_suggestion services settings desk)
  unfolding aggressive_fee_suggestion
  aggressive_fee_suggestion-Tries desk =
      pass_on-Tries (desk, services.suggested_eip1559_fee_details) _ desk (ask-Tries desk _)
        λ a _. succeeded _ tt

  pub replace_pending_transaction-Tries :
      (executor : Address) (calldata : List ℕ) (nonce gas_limit previous priority : ℕ) (desk : Desk)
      → Tries desk (Outbids gas_limit previous) (
          replace_pending_transaction services settings executor calldata nonce gas_limit previous
            priority desk)
  unfolding replace_pending_transaction
  replace_pending_transaction-Tries executor calldata nonce gas_limit previous priority desk =
      pass_on-Tries (replaceable services settings executor calldata desk) _ desk
        (replaceable-Tries executor calldata desk)
        λ _ _.
          pass_on-Tries (aggressive_fee_suggestion services settings desk) _ desk
            (aggressive_fee_suggestion-Tries desk)
            λ suggested _.
              pass_on-Tries (desk, services.submission_block_number) _ desk (ask-Tries desk _)
                λ block _.
                  pass_on-Tries (desk, services.sign_and_send executor calldata nonce gas_limit _ _)
                    _ desk (ask-Tries desk _) λ tx _. succeeded _ (refl, ground arith)

  aggressive_fee_suggestion-ordered :
      (desk : Desk)
      → settings.execution_min_priority_fee_wei ≤ u256_max
      → Tries desk
          (λ (a : Eip1559FeeSuggestion). a.max_priority_fee_per_gas ≤ a.max_fee_per_gas)
          (aggressive_fee_suggestion services settings desk)
  unfolding aggressive_fee_suggestion
  aggressive_fee_suggestion-ordered desk small =
      pass_on-Tries (desk, services.suggested_eip1559_fee_details) _ desk (ask-Tries desk _)
        λ a _. succeeded _ (aggressive_fees-ordered _ _ _ a small)

  bids-Tries :
      (executor : Address) (calldata : List ℕ) (nonce gas_limit previous priority : ℕ) (desk : Desk)
      → settings.execution_min_priority_fee_wei ≤ u256_max
      → priority ≤ previous
      → Tries desk
          (λ (sent : Submission).
            (sent.nonce ≡ nonce)
            × (sent.gas_limit ≡ gas_limit)
            × (bump_fee previous settings.execution_replacement_fee_bump_bps ≤ sent.max_fee_per_gas)
            × (bump_fee priority settings.execution_replacement_fee_bump_bps
                ≤ sent.max_priority_fee_per_gas)
            × (sent.max_priority_fee_per_gas ≤ sent.max_fee_per_gas))
          (replace_pending_transaction services settings executor calldata nonce gas_limit previous
            priority desk)
  unfolding replace_pending_transaction
  bids-Tries executor calldata nonce gas_limit previous priority desk small below =
      pass_on-Tries (replaceable services settings executor calldata desk) _ desk
        (replaceable-Tries executor calldata desk)
        λ _ _.
          pass_on-Tries (aggressive_fee_suggestion services settings desk) _ desk
            (aggressive_fee_suggestion-ordered desk small)
            λ suggested lower.
              pass_on-Tries (desk, services.submission_block_number) _ desk (ask-Tries desk _)
                λ block _.
                  pass_on-Tries (desk, services.sign_and_send executor calldata nonce gas_limit _ _)
                    _ desk (ask-Tries desk _)
                    λ tx _.
                      let bumped =
                        bump_fee_mono priority previous settings.execution_replacement_fee_bump_bps
                          below in
                      succeeded _
                        (refl, refl, ground arith, ground arith, ground (arith, bumped, lower))

  -- Where the replaced transaction's priority fee was at most its fee and the configured smallest priority
  -- fits in a word: a replacement that is sent keeps the nonce and the gas limit, its fees are at least the
  -- bumped ones, and its priority fee is at most its fee.
  pub replacement_bid :
      (executor : Address) (calldata : List ℕ) (nonce gas_limit previous priority : ℕ) (desk : Desk)
      (sent : Submission)
      → settings.execution_min_priority_fee_wei ≤ u256_max
      → priority ≤ previous
      → (replace_pending_transaction services settings executor calldata nonce gas_limit previous
          priority desk).1
        ≡ ok sent
      → (sent.nonce ≡ nonce)
        × (sent.gas_limit ≡ gas_limit)
        × (bump_fee previous settings.execution_replacement_fee_bump_bps ≤ sent.max_fee_per_gas)
        × (bump_fee priority settings.execution_replacement_fee_bump_bps
            ≤ sent.max_priority_fee_per_gas)
        × (sent.max_priority_fee_per_gas ≤ sent.max_fee_per_gas)
  replacement_bid executor calldata nonce gas_limit previous priority desk sent small below h =
      tried_value (bids-Tries executor calldata nonce gas_limit previous priority desk small below)
        h
