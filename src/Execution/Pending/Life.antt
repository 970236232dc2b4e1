-- ===== src/Execution/Pending/Life.antt =====
-- The lives of a lane under the operations that the service applies to it: opened, a transaction sent,
-- a pending transaction handled, the idle lane synchronised, a cooldown after a failed submission.
use dexmoney.Prelude.{ℕ, Option, [], ◌≡◌, refl, ◌≤◌, ◌⊎◌, inl, inr, arith}
use dexmoney.Common.Pool.{Address}
use dexmoney.Common.Transaction.{EoaLaneState, EoaLaneStatus}
use dexmoney.Execution.Lane.{
  new, mark_submitted, mark_replaced, mark_confirmed, clear_consumed_pending, mark_cooldown,
}
use dexmoney.Execution.Handler.{Settings, Services, Desk, ends_by, pass_on-Ends, ends_lane}
use dexmoney.Execution.Pending.{sync_idle_lane, handle_pending_lane}
use dexmoney.Execution.Pending.Transitions.{Held, Outcome, waiting, replaced, consumed, confirmed}
use dexmoney.Execution.Pending.Outcome.{handle_pending_lane-Outcome}

abbrev pub desk_of : EoaLaneState → Desk
desk_of lane = record { lane = lane; recorded = []; stored = [] }

pub data Lives (settings : Settings) : EoaLaneState → Type 0 where
  opened : (address : Address) → Lives settings (new address)
  sent :
      (opp : ℕ) (sim : Option ℕ) (tx executor nonce block gas_limit fee priority : ℕ)
      (s : EoaLaneState)
      → Lives settings s
      → Lives settings (mark_submitted opp sim tx executor nonce block gas_limit fee priority s)
  handled :
      (services : Services) (s : EoaLaneState)
      → Lives settings s
      → s.status ≡ EoaLaneStatus.pending
      → Lives settings (handle_pending_lane services settings (desk_of s)).0.lane
  synchronised :
      (services : Services) (s : EoaLaneState)
      → Lives settings s
      → Lives settings (sync_idle_lane services settings (desk_of s)).0.lane
  cooled : (s : EoaLaneState) → Lives settings s → Lives settings (mark_cooldown s)

-- A pending lane knows its transaction, and no lane counts more replacements than the limit.
pub record Tracked (settings : Settings) (s : EoaLaneState) : Type 0 where
  pub under_way : s.status ≡ EoaLaneStatus.pending → Held s
  pub within : s.pending_replacement_count ≤ settings.execution_max_replacements

module _ (settings : Settings) where
  Outcome-Tracked :
      {services : Services} {s s' : EoaLaneState}
      → Held s
      → s.pending_replacement_count ≤ settings.execution_max_replacements
      → Outcome services settings s s'
      → Tracked settings s'
  unfolding mark_replaced mark_confirmed clear_consumed_pending
  Outcome-Tracked held within waiting = record { under_way = λ _. held; within = within }
  Outcome-Tracked held within (replaced tx block gas fee previous priority nonce _ _ due _ _ _) =
      let room = due.room in
      record {
        under_way =
            λ _. record { tx = (tx, refl); opportunity = held.opportunity; nonce = held.nonce };
        within = ground arith;
      }
  Outcome-Tracked held within (consumed c l b n _ _ _ _ _) = record {
    under_way = λ h. cc;
    within = omega arith;
  }
  Outcome-Tracked held within (confirmed _ _ c l b _ _ _ _ _) = record {
    under_way = λ h. cc;
    within = omega arith;
  }

  sync_idle_lane-Tracked :
      (services : Services) (s : EoaLaneState)
      → Tracked settings s
      → Tracked settings (sync_idle_lane services settings (desk_of s)).0.lane
  unfolding sync_idle_lane
  sync_idle_lane-Tracked services s tracked =
      let moved : (c n : ℕ) → Tracked settings (record s { confirmed_nonce = c; local_nonce = n }) =
        λ c n. record {
          under_way = λ h.
              let held = tracked.under_way h in
              record { tx = held.tx; opportunity = held.opportunity; nonce = held.nonce };
          within = tracked.within;
        } in
      ends_lane {P = Tracked settings} (sync_idle_lane services settings (desk_of s)) (
        pass_on-Ends _ _ _ tracked λ c _. pass_on-Ends _ _ _ tracked λ n _.
          pass_on-Ends _ _ _ (moved c n) λ _ _.
            pass_on-Ends _ _ _ (moved c n)
              λ b _. ends_by (record { under_way = λ h. cc; within = tracked.within }))

  -- Every lane that lives is tracked.
  pub Lives-Tracked : {s : EoaLaneState} → Lives settings s → Tracked settings s
  unfolding new mark_submitted mark_cooldown
  Lives-Tracked (opened address) = record { under_way = λ h. cc; within = omega arith }
  Lives-Tracked (sent opp sim tx executor nonce block gas fee priority s life) = record {
    under_way = λ _. record { tx = (tx, refl); opportunity = (opp, refl); nonce = (nonce, refl) };
    within = omega arith;
  }
  Lives-Tracked (handled services s life busy) =
      let tracked = Lives-Tracked life in
      Outcome-Tracked (tracked.under_way busy) tracked.within
        (handle_pending_lane-Outcome services settings (desk_of s) (tracked.under_way busy))
  Lives-Tracked (synchronised services s life) =
      sync_idle_lane-Tracked services s (Lives-Tracked life)
  Lives-Tracked (cooled s life) = record {
    under_way = λ h. cc;
    within = (Lives-Tracked life).within;
  }

  Outcome-status :
      {services : Services} {s s' : EoaLaneState}
      → s.status ≡ EoaLaneStatus.pending
      → Outcome services settings s s'
      → (s'.status ≡ EoaLaneStatus.pending) ⊎ (s'.status ≡ EoaLaneStatus.idle)
  unfolding mark_replaced mark_confirmed clear_consumed_pending
  Outcome-status busy waiting = inl busy
  Outcome-status busy (replaced tx block gas fee previous priority nonce _ _ _ _ _ _) = inl refl
  Outcome-status busy (consumed c l b n _ _ _ _ _) = inr refl
  Outcome-status busy (confirmed _ _ c l b _ _ _ _ _) = inr refl

  -- Handling a pending lane that lives leaves it pending or idle: the branches that block a lane whose
  -- transaction is not known are never taken.
  pub pending-never-Blocked :
      (services : Services) {s : EoaLaneState}
      → Lives settings s
      → s.status ≡ EoaLaneStatus.pending
      → let s' = (handle_pending_lane services settings (desk_of s)).0.lane in
        (s'.status ≡ EoaLaneStatus.pending) ⊎ (s'.status ≡ EoaLaneStatus.idle)
  pending-never-Blocked services {s} life busy = Outcome-status busy (
      handle_pending_lane-Outcome services settings (desk_of s)
        ((Lives-Tracked life).under_way busy))
