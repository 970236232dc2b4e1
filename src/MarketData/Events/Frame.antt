-- ===== src/MarketData/Events/Frame.antt =====
-- What an event may change in a pool's state.
use dexmoney.Prelude.{
  ℕ, Bool, true, false, Option, none, some, ok, err, ◌==◌, ◌≡◌, ◌≢◌, refl, ap, ◌⊎◌, inl, inr,
  if◌then◌else◌, max, Bool-cases, ==_iff,
}
use dexmoney.Prelude.Int.{ℤ}
use dexmoney.Common.Pool.{Address, PoolState}
use dexmoney.Word.{checked_sub}
use dexmoney.MarketData.Decode.{Text, Decoded, decode_sync_reserves, decode_v3_swap_state}
use dexmoney.MarketData.Events.{
  DexEvent, topic0, pay_from_reserve0, pay_from_reserve1, move_balances, mark_applied, set_reserves,
  set_v3_state, set_balancer_fee, check_balancer_swap, apply_balancer_swap_balances,
  apply_balancer_swap, conclude_event, read_balancer_swap, apply_topic, apply_payload, apply_known,
  apply_event_to_pool_state,
}

-- The second state differs from the first in reserves, prices, liquidity and tick, and the Balancer fee at
-- most: what an event reports.
abbrev pub Reports : PoolState → PoolState → Type 0
Reports s t = t ≡ record s {
  reserve0 = t.reserve0;
  reserve1 = t.reserve1;
  sqrt_price_x96 = t.sqrt_price_x96;
  liquidity = t.liquidity;
  tick = t.tick;
  balancer_swap_fee_percentage = t.balancer_swap_fee_percentage;
}

pay_from_reserve0-Reports :
    (s t : PoolState) (left : Option ℕ) → Reports s t → Reports s (pay_from_reserve0 left t).0
unfolding pay_from_reserve0
pay_from_reserve0-Reports s t none h = h
pay_from_reserve0-Reports s t (some left) h =
    ap (λ (u : PoolState). record u { reserve0 = some left }) h

pay_from_reserve1-Reports :
    (s t : PoolState) (left : Option ℕ) → Reports s t → Reports s (pay_from_reserve1 left t).0
unfolding pay_from_reserve1
pay_from_reserve1-Reports s t none h = h
pay_from_reserve1-Reports s t (some left) h =
    ap (λ (u : PoolState). record u { reserve1 = some left }) h

move_balances-Reports :
    (s : PoolState) (found : Decoded (Bool × ℕ × ℕ × ℕ × ℕ)) → Reports s (move_balances found s).0
unfolding move_balances
move_balances-Reports s (err e) = refl
move_balances-Reports s (ok (true, amount_in, amount_out, reserve0, reserve1)) =
    pay_from_reserve1-Reports s _ (checked_sub reserve1 amount_out) refl
move_balances-Reports s (ok (false, amount_in, amount_out, reserve0, reserve1)) =
    pay_from_reserve0-Reports s _ (checked_sub reserve0 amount_out) refl

set_balancer_fee-Reports :
    (s : PoolState) (fee : ℕ) (r : PoolState × Decoded (Unit {0}))
    → Reports s r.0
    → Reports s (set_balancer_fee fee r).0
unfolding set_balancer_fee
set_balancer_fee-Reports s fee (t, ok done) h =
    ap (λ (u : PoolState). record u { balancer_swap_fee_percentage = some fee }) h
set_balancer_fee-Reports s fee (t, err e) h = h

apply_balancer_swap-Reports :
    (s : PoolState) (read : Decoded (Address × Address × ℕ × ℕ × ℕ))
    → Reports s (apply_balancer_swap read s).0
unfolding apply_balancer_swap apply_balancer_swap_balances
apply_balancer_swap-Reports s (err e) = refl
apply_balancer_swap-Reports s (ok (token_in, token_out, amount_in, amount_out, fee)) =
    let found = check_balancer_swap s token_in token_out amount_in amount_out in
    set_balancer_fee-Reports s fee (move_balances found s) (move_balances-Reports s found)

set_reserves-Reports : (s : PoolState) (read : Decoded (ℕ × ℕ)) → Reports s (set_reserves read s).0
unfolding set_reserves
set_reserves-Reports s (err e) = refl
set_reserves-Reports s (ok (a, b)) = refl

set_v3_state-Reports :
    (s : PoolState) (read : Decoded (ℕ × ℕ × ℤ)) → Reports s (set_v3_state read s).0
unfolding set_v3_state
set_v3_state-Reports s (err e) = refl
set_v3_state-Reports s (ok (a, b, c)) = refl

-- Where the event was applied, the state was only changed in what an event reports, and marked with the
-- event's block; where it was not, it was not marked.
abbrev pub Applies : ℕ → DexEvent → PoolState → PoolState × Decoded Bool → Type 0
Applies now event s r =
    (t : PoolState) × Reports s t
    × (((r.1 ≡ ok true)
          × (r.0 ≡ record t {
            block_number = event.block_number;
            valid_through_block = max s.valid_through_block event.block_number;
            updated_at = now;
          }))
        ⊎ ((r.1 ≢ ok true) × (r.0 ≡ t)))

conclude_event-Applies :
    (now : ℕ) (event : DexEvent) (s : PoolState) (r : PoolState × Decoded (Unit {0}))
    → Reports s r.0
    → Applies now event s (conclude_event now event r)
unfolding conclude_event mark_applied
conclude_event-Applies now event s (t, ok done) h = (
  t,
  h,
  inl (
    refl,
    λ i. record t {
      block_number = event.block_number;
      valid_through_block = max (h i).valid_through_block event.block_number;
      updated_at = now;
    },
  ),
)
conclude_event-Applies now event s (t, err e) h = (t, h, inr (λ k. cc, refl))

not_applied :
    (now : ℕ) (event : DexEvent) (s : PoolState) (result : Decoded Bool)
    → result ≢ ok true
    → Applies now event s (s, result)
not_applied now event s result h = (s, refl, inr (h, refl))

-- The same, whichever of two ways is taken.
either_way :
    (now : ℕ) (event : DexEvent) (s : PoolState) (test : Bool) (a b : PoolState × Decoded Bool)
    → Applies now event s a
    → Applies now event s b
    → Applies now event s (if test then a else b)
either_way now event s true a b h k = h
either_way now event s false a b h k = k

module _ (u256_from_hex : Text → Decoded ℕ) (parse_address : Text → Decoded Address) where
  apply_topic-Applies :
      (now : ℕ) (event : DexEvent) (topic payload : Text) (s : PoolState)
      → Applies now event s (apply_topic u256_from_hex parse_address now event topic payload s)
  unfolding apply_topic
  apply_topic-Applies now event topic payload s =
      either_way now event s _ _ _
        (conclude_event-Applies now event s
          (set_reserves (decode_sync_reserves u256_from_hex parse_address payload) s)
          (set_reserves-Reports s (decode_sync_reserves u256_from_hex parse_address payload)))
        (either_way now event s _ _ _
          (conclude_event-Applies now event s
            (set_v3_state (decode_v3_swap_state u256_from_hex parse_address payload) s)
            (set_v3_state-Reports s (decode_v3_swap_state u256_from_hex parse_address payload)))
          (either_way now event s _ _ _
            (conclude_event-Applies now event s
              (apply_balancer_swap (read_balancer_swap u256_from_hex parse_address event payload) s)
              (apply_balancer_swap-Reports s
                (read_balancer_swap u256_from_hex parse_address event payload)))
            (not_applied now event s (ok false) (λ k. cc))))

  apply_payload-Applies :
      (now : ℕ) (event : DexEvent) (topic : Text) (payload : Option Text) (s : PoolState)
      → Applies now event s (apply_payload u256_from_hex parse_address now event topic payload s)
  unfolding apply_payload
  apply_payload-Applies now event topic none s = not_applied now event s _ (λ k. cc)
  apply_payload-Applies now event topic (some payload) s =
      apply_topic-Applies now event topic payload s

  apply_known-Applies :
      (now : ℕ) (event : DexEvent) (topic : Option Text) (s : PoolState)
      → Applies now event s (apply_known u256_from_hex parse_address now event topic s)
  unfolding apply_known
  apply_known-Applies now event none s = not_applied now event s (ok false) (λ k. cc)
  apply_known-Applies now event (some topic) s =
      apply_payload-Applies now event topic event.payload s

  -- An event changes a state in what events report at most: reserves, price, liquidity, tick and Balancer
  -- fee. Where it is applied the pool is the event's, and the state has the event's block and time, and is
  -- valid through that block at least and no less far than before; where it is not, or fails, block, validity
  -- and time stay; and an event of another pool changes nothing.
  pub apply_event_to_pool_state-Applies :
      (now : ℕ) (event : DexEvent) (s : PoolState)
      → let r = apply_event_to_pool_state u256_from_hex parse_address now event s in
        Applies now event s r
        × (r.1 ≡ ok true → s.pool_id.address ≡ event.pool_address)
        × (s.pool_id.address ≢ event.pool_address → r ≡ (s, ok false))
  unfolding apply_event_to_pool_state
  apply_event_to_pool_state-Applies now event s =
      elim (Bool-cases (s.pool_id.address == event.pool_address)) [
        | inl e ↦
            let same = (==_iff s.pool_id.address event.pool_address).0 e in
            rw e (
              apply_known-Applies now event (topic0 event) s,
              λ k. same,
              λ other. absurd (other same),
            )
        | inr e ↦ rw e (not_applied now event s (ok false) (λ k. cc), λ k. cc, λ other. refl)
      ]
