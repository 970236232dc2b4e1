-- ===== src/Execution/Pending/Outcome.antt =====
-- What the handling of a pending lane makes of it.
use dexmoney.Prelude.{ℕ, Bool, Option, none, some, ok, ◌≡◌, refl, ◌<◌, leb, arith}
use dexmoney.Execution.Lane.{mark_confirmed}
use dexmoney.Execution.Handler.{
  TxReceipt, Settings, Services, Desk, Ends, ends_by, pass_on-Ends, or_return-Ends, branch-Ends,
  ◌>>=◌,
}
use dexmoney.Execution.Pending.{
  handle_pending_lane, follow_lane, follow_transaction, after_receipt, await_receipt, settle,
  maybe_replace_pending_tx, replace_lane, note_replacement, clear_lane_if_pending_nonce_consumed,
  clear_lane, replace_pending_transaction,
}
use dexmoney.Execution.Pending.Transitions.{
  Held, Unmined, Unconsumed, Due, Outcome, waiting, replaced, consumed, confirmed,
}
use dexmoney.Execution.Pending.Results.{Submission}
use mathlib.Core.Path.{subst}
use dexmoney.Prelude.{sym, ap, ◌∙◌, Bool-cases, inl, inr}
use dexmoney.Execution.Handler.{
  attempt-Ends, branch, ends_lane, Declines, declines_by, pass_on, declined, done, pass_on-Declines,
}
use dexmoney.Execution.Pending.{replacement_executor}
use dexmoney.Execution.Pending.Replacement.{Outbids, replace_pending_transaction-Tries}

module _ (services : Services) (settings : Settings) where
  clear_lane-Ends :
      (tx opp : ℕ) (sim : Option ℕ) (nonce confirmed_nonce : ℕ) (desk : Desk)
      → Unmined services desk.lane nonce
      → services.confirmed_transaction_count ≡ ok confirmed_nonce
      → nonce < confirmed_nonce
      → Ends
          (Outcome services settings desk.lane)
          (clear_lane services settings tx opp sim nonce confirmed_nonce desk.lane desk)
  unfolding clear_lane
  clear_lane-Ends tx opp sim nonce confirmed_nonce desk unmined counted below =
      pass_on-Ends _ _ _ waiting λ pending_nonce pending.
        pass_on-Ends _ _ _ waiting λ eth_balance held.
          let out =
            consumed confirmed_nonce pending_nonce eth_balance nonce unmined counted below pending
              held in
          pass_on-Ends _ _ _ waiting
            λ _ _. pass_on-Ends _ _ _ out λ _ _. pass_on-Ends _ _ _ out λ _ _. ends_by out

  clear_lane_if_pending_nonce_consumed-Ends :
      (tx opp : ℕ) (sim : Option ℕ) (nonce : ℕ) (desk : Desk)
      → Unmined services desk.lane nonce
      → Ends
          (Outcome services settings desk.lane)
          (clear_lane_if_pending_nonce_consumed services settings tx opp sim nonce desk.lane desk)
  unfolding clear_lane_if_pending_nonce_consumed
  clear_lane_if_pending_nonce_consumed-Ends tx opp sim nonce desk unmined =
      pass_on-Ends _ _ _ waiting λ confirmed_nonce counted.
        branch-Ends (leb confirmed_nonce nonce) _ _ _ (λ _. ends_by waiting)
          λ over.
            clear_lane-Ends tx opp sim nonce confirmed_nonce desk unmined counted (ground arith)

  settle-Ends :
      (tx opp nonce : ℕ) (receipt : TxReceipt) (desk : Desk)
      → desk.lane.pending_tx ≡ some tx
      → services.get_transaction_receipt tx ≡ ok (some receipt)
      → Ends
          (Outcome services settings desk.lane)
          (settle services settings opp nonce desk.lane receipt desk)
  unfolding settle mark_confirmed
  settle-Ends tx opp nonce receipt desk same mined =
      let s = desk.lane in
      pass_on-Ends _ _ _ waiting λ _ _. pass_on-Ends _ _ _ waiting λ c counted.
        let first =
          confirmed tx receipt c s.local_nonce s.eth_balance same mined counted (inl refl)
            (inl refl) in
        pass_on-Ends _ _ _ first λ _ _. pass_on-Ends _ _ _ first λ n pending.
          let second =
            confirmed tx receipt c n s.eth_balance same mined counted (inr pending) (inl refl) in
          pass_on-Ends _ _ _ second λ _ _. pass_on-Ends _ _ _ second λ b held.
            let last = confirmed tx receipt c n b same mined counted (inr pending) (inr held) in
            pass_on-Ends _ _ _ last λ _ _. pass_on-Ends _ _ _ last λ _ _. ends_by last

  note_replacement-Ends :
      (opp sim old nonce gas_limit previous held : ℕ) (sent : Submission) (desk : Desk)
      → Unmined services desk.lane held
      → Unconsumed services held
      → Due services settings desk.lane
      → desk.lane.pending_gas_limit ≡ some gas_limit
      → desk.lane.pending_max_fee_per_gas ≡ some previous
      → Outbids services settings gas_limit previous sent
      → Ends
          (Outcome services settings desk.lane)
          (note_replacement services settings opp sim old nonce desk.lane (ok sent) desk)
  unfolding note_replacement
  note_replacement-Ends opp sim old nonce gas_limit previous held sent desk unmined behind due gas
        fee (same, bid) =
      let gas' : desk.lane.pending_gas_limit ≡ some sent.gas_limit =
        gas ∙ ap (λ g. some g) (sym same) in
      let out =
        replaced sent.tx_hash sent.submitted_block sent.gas_limit sent.max_fee_per_gas previous
          sent.max_priority_fee_per_gas held unmined behind due gas' fee bid in
      pass_on-Ends _ _ _ waiting
        λ _ _. pass_on-Ends _ _ _ waiting λ _ _. pass_on-Ends _ _ _ out λ _ _. ends_by out

  replace_lane-Ends :
      (held : ℕ) (desk : Desk)
      → Unmined services desk.lane held
      → Unconsumed services held
      → Due services settings desk.lane
      → Ends (Outcome services settings desk.lane) (replace_lane services settings desk.lane desk)
  unfolding replace_lane note_replacement
  replace_lane-Ends held desk unmined behind due = or_return-Ends _ _ _ waiting λ opp _.
      or_return-Ends _ _ _ waiting λ sim _. or_return-Ends _ _ _ waiting λ nonce _.
        or_return-Ends _ _ _ waiting λ gas_limit gas. or_return-Ends _ _ _ waiting λ previous fee.
          or_return-Ends _ _ _ waiting λ priority _. or_return-Ends _ _ _ waiting λ old _.
            pass_on-Ends _ _ _ waiting λ known _. or_return-Ends _ _ _ waiting λ calldata _.
              attempt-Ends
                (replace_pending_transaction services settings
                  (replacement_executor services settings desk.lane) calldata nonce gas_limit
                  previous priority desk)
                _ desk
                (replace_pending_transaction-Tries services settings _ calldata nonce gas_limit
                  previous priority desk)
                (λ e. ends_by waiting)
                (λ sent bid.
                  note_replacement-Ends opp sim old nonce gas_limit previous held sent desk unmined
                    behind due gas fee bid)

  maybe_replace_pending_tx-Ends :
      (held : ℕ) (desk : Desk)
      → Unmined services desk.lane held
      → Unconsumed services held
      → Ends
          (Outcome services settings desk.lane)
          (maybe_replace_pending_tx services settings desk.lane desk)
  unfolding maybe_replace_pending_tx
  maybe_replace_pending_tx-Ends held desk unmined behind =
      branch-Ends (leb settings.execution_max_replacements desk.lane.pending_replacement_count) _ _
        _ (λ _. ends_by waiting)
        λ room. or_return-Ends _ _ _ waiting λ submitted_block submitted.
          pass_on-Ends _ _ _ waiting λ current_block current.
            branch-Ends _ _ _ _ (λ _. ends_by waiting)
              λ waited. replace_lane-Ends held desk unmined behind (record {
                submitted_block = submitted_block;
                current_block = current_block;
                submitted = submitted;
                current = current;
                waited = ground arith;
                room = ground arith;
              })

  clear_lane-Declines :
      (tx opp : ℕ) (sim : Option ℕ) (nonce confirmed_nonce : ℕ) (desk : Desk)
      → Declines
          (Unconsumed services nonce)
          desk
          (clear_lane services settings tx opp sim nonce confirmed_nonce desk.lane desk)
  unfolding clear_lane
  clear_lane-Declines tx opp sim nonce confirmed_nonce desk = pass_on-Declines _ _ _ λ _ _.
      pass_on-Declines _ _ _ λ _ _.
        pass_on-Declines _ _ _
          λ _ _. pass_on-Declines _ _ _ λ _ _. pass_on-Declines _ _ _ λ _ _. declines_by λ h. cc

  consumed-Declines :
      (tx opp : ℕ) (sim : Option ℕ) (nonce : ℕ) (desk : Desk)
      → Declines
          (Unconsumed services nonce)
          desk
          (clear_lane_if_pending_nonce_consumed services settings tx opp sim nonce desk.lane desk)
  unfolding clear_lane_if_pending_nonce_consumed branch
  consumed-Declines tx opp sim nonce desk = pass_on-Declines _ _ _ λ confirmed_nonce counted.
      elim (Bool-cases (leb confirmed_nonce nonce)) [
        | inl e ↦ rw e (
            declines_by λ _.
              (refl, record { count = confirmed_nonce; counted = counted; behind = ground arith }))
        | inr e ↦ rw e (clear_lane-Declines tx opp sim nonce confirmed_nonce desk)
      ]

  retry-Ends :
      (nonce : ℕ) (now desk : Desk)
      → desk ≡ now
      → Unmined services desk.lane nonce
      → Unconsumed services nonce
      → Ends {A = Option Bool}
          (Outcome services settings desk.lane)
          ((maybe_replace_pending_tx services settings desk.lane >>= λ tried. done none) now)
  retry-Ends nonce now desk e unmined behind =
      let tried = maybe_replace_pending_tx services settings desk.lane desk in
      let kept = ends_lane tried (maybe_replace_pending_tx-Ends nonce desk unmined behind) in
      subst
        (λ now.
          Ends {A = Option Bool} (Outcome services settings desk.lane)
            ((maybe_replace_pending_tx services settings desk.lane >>= λ tried. done none) now))
        e (pass_on-Ends tried.1 _ tried.0 kept λ _ _. ends_by kept)

  await_receipt-Ends :
      (tx opp nonce : ℕ) (desk : Desk)
      → Unmined services desk.lane nonce
      → Ends
          (Outcome services settings desk.lane)
          (await_receipt services settings tx opp nonce desk.lane desk)
  unfolding await_receipt
  await_receipt-Ends tx opp nonce desk unmined =
      let sim = desk.lane.pending_simulation_id in
      let first =
        clear_lane_if_pending_nonce_consumed services settings tx opp sim nonce desk.lane desk in
      let kept =
        ends_lane first (clear_lane_if_pending_nonce_consumed-Ends tx opp sim nonce desk unmined) in
      pass_on-Ends first.1 _ first.0 kept λ consumed h.
        branch-Ends consumed _ _ first.0 (λ _. ends_by kept)
          λ not_so.
            let (same, behind) =
              declined desk first (consumed-Declines tx opp sim nonce desk)
                (h ∙ ap (λ b. ok b) not_so) in
            retry-Ends nonce first.0 desk (sym same) unmined behind

  after_receipt-Ends :
      (tx opp nonce : ℕ) (known : Option TxReceipt) (desk : Desk)
      → services.get_transaction_receipt tx ≡ ok known
      → desk.lane.pending_tx ≡ some tx
      → desk.lane.pending_nonce ≡ some nonce
      → Ends
          (Outcome services settings desk.lane)
          (after_receipt services settings tx opp nonce desk.lane known desk)
  unfolding after_receipt
  after_receipt-Ends tx opp nonce none desk answered hash same =
      await_receipt-Ends tx opp nonce desk
        (record { hash = tx; tx = hash; no_receipt = answered; at = same })
  after_receipt-Ends tx opp nonce (some receipt) desk answered hash same =
      settle-Ends tx opp nonce receipt desk hash answered

  follow_transaction-Ends :
      (tx opp nonce : ℕ) (desk : Desk)
      → desk.lane.pending_tx ≡ some tx
      → desk.lane.pending_nonce ≡ some nonce
      → Ends
          (Outcome services settings desk.lane)
          (follow_transaction services settings tx opp nonce desk.lane desk)
  unfolding follow_transaction
  follow_transaction-Ends tx opp nonce desk hash same =
      pass_on-Ends _ _ _ waiting
        λ known answered. after_receipt-Ends tx opp nonce known desk answered hash same

  follow_lane-Ends :
      (t o n : Option ℕ) {tx opp nonce : ℕ} (desk : Desk)
      → t ≡ some tx
      → o ≡ some opp
      → n ≡ some nonce
      → desk.lane.pending_tx ≡ t
      → desk.lane.pending_nonce ≡ n
      → Ends
          (Outcome services settings desk.lane)
          (follow_lane services settings t o n desk.lane desk)
  unfolding follow_lane
  follow_lane-Ends (some t) (some o) (some n) desk et eo en hash same =
      follow_transaction-Ends t o n desk hash same
  follow_lane-Ends (some t) (some o) none desk et eo en hash same = cc
  follow_lane-Ends (some t) none n desk et eo en hash same = cc
  follow_lane-Ends none o n desk et eo en hash same = cc

  -- Handling a lane that knows its transaction's hash, opportunity and nonce leaves it in one of these
  -- states, whatever the services answer, errors included: as it was; replaced, where there is no receipt, the
  -- nonce is not consumed, it has waited long enough and its count was below the limit, with the same gas
  -- limit and a fee of at least the bumped one; cleared, where there is no receipt and the nonce is below the
  -- confirmed count; or confirmed, where there is a receipt. It is never blocked. The new counts and balance
  -- are those that were answered.
  pub handle_pending_lane-Outcome :
      (desk : Desk)
      → Held desk.lane
      → Outcome services settings desk.lane (handle_pending_lane services settings desk).0.lane
  unfolding handle_pending_lane pass_on
  handle_pending_lane-Outcome desk held =
      let s = desk.lane in
      ends_lane
        (follow_lane services settings s.pending_tx s.pending_opportunity_id s.pending_nonce s desk)
        (follow_lane-Ends s.pending_tx s.pending_opportunity_id s.pending_nonce desk held.tx.1
          held.opportunity.1 held.nonce.1 refl refl)
