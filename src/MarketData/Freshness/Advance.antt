-- ===== src/MarketData/Freshness/Advance.antt =====
-- States that a block has left unchanged are valid through it.
use dexmoney.Prelude.{
  ℕ, List, [], ◌∷◌, ltb, ◌≡◌, refl, inl, inr, map, max, retain, Bool-cases, arith,
}
use dexmoney.Common.Pool.{PoolState, effective_valid_through_block}
use dexmoney.MarketData.Freshness.{advance_state, advance_valid_through_block}

advance_state-effective :
    (b : ℕ) (s : PoolState)
    → effective_valid_through_block (advance_state b s) ≡ max (effective_valid_through_block s) b
unfolding advance_state effective_valid_through_block
advance_state-effective b s = elim (Bool-cases (ltb (max s.valid_through_block s.block_number) b)) [
  | inl e ↦ rw e (ground arith)
  | inr e ↦ rw e (ground arith)
]

-- Afterwards each state is effectively valid through the later of the block and what it was valid through,
-- and the pools reported as changed are exactly those that were behind the block, in their order.
pub advance_valid_through_block_lem :
    (states : List PoolState) (b : ℕ)
    → (map effective_valid_through_block (advance_valid_through_block states b).0
        ≡ map (λ s. max (effective_valid_through_block s) b) states)
      × ((advance_valid_through_block states b).1
          ≡ map
              (λ s. s.pool_id.address)
              (retain (λ s. ltb (effective_valid_through_block s) b) states))
unfolding advance_valid_through_block
advance_valid_through_block_lem [] b = (refl, refl)
advance_valid_through_block_lem (s ∷ states) b =
    let (valid, changed) = advance_valid_through_block_lem states b in
    elim (Bool-cases (ltb (effective_valid_through_block s) b)) [
      | inl e ↦ rw (advance_state-effective b s, e, valid, changed) (refl, refl)
      | inr e ↦ rw (advance_state-effective b s, e, valid, changed) (refl, refl)
    ]
