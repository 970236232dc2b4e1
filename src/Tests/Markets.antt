-- ===== src/Tests/Markets.antt =====
-- Events and ticks of crates/market-data.
use dexmoney.Prelude.{
  ℕ, inl, inr, Bool-cases, ◌≡◌, ◌≢◌, refl, ok, true, false, List, [], ◌∷◌, some, arith, map, max,
  retain, ltb, unwrap_or, ◌++◌,
}
use dexmoney.Prelude.Sorting.{sort}
use dexmoney.Prelude.Int.{ℤ, pos, negsuc}
use dexmoney.Common.Pool.{Address, PoolId, PoolState, TickState, effective_valid_through_block}
use dexmoney.MarketData.Decode.{
  Text, Decoded, hex_value, decode_i24_word, encode_i24_word, hex_text,
}
use dexmoney.MarketData.Decode.RoundTrip.{decode_i24_word-encode_i24_word}
use dexmoney.MarketData.Events.{
  DexEvent, aerodrome_sync_topic, apply_event_to_pool_state, position_deltas,
}
use dexmoney.MarketData.Events.Frame.{Applies, apply_event_to_pool_state-Applies}
use dexmoney.MarketData.Ticks.{
  apply_tick_deltas, apply_delta, checked_add_i128, tick_at, apply_signed_u256_delta, set_tick,
  swap_remove, eq_ℤ,
}
use dexmoney.MarketData.Ticks.Change.{liquidity_at}
use dexmoney.MarketData.Ticks.RoundTrip.{mint_then_burn, Standing}
use dexmoney.MarketData.Freshness.{advance_valid_through_block}
use dexmoney.MarketData.Freshness.Advance.{advance_valid_through_block_lem}
use dexmoney.Tests.Searches.{classic_pool}

decode_i24_word-encode_i24_word_example :
    decode_i24_word (encode_i24_word (negsuc 59)) ≡ ok (negsuc 59)
decode_i24_word-encode_i24_word_example =
    decode_i24_word-encode_i24_word (negsuc 59) (omega arith) (omega arith)

-- Stand-ins for alloy's parsers, of small numbers.
small_hex : Text → Decoded ℕ
small_hex text = ok (unwrap_or (hex_value 0 text) 0)

small_address : Text → Decoded Address
small_address text = ok 0

-- The reserves 500 and 300 in block 9.
abbrev sync_event : DexEvent
sync_event = record {
  block_number = 9;
  pool_address = 11;
  topics = some (some aerodrome_sync_topic ∷ []);
  payload = some (hex_text 64 500 ++ hex_text 64 300);
}

apply_event_to_pool_state-Applies_example :
    Applies 77 sync_event (classic_pool 11 1_000 1_000) (
      apply_event_to_pool_state small_hex small_address 77 sync_event (classic_pool 11 1_000 1_000))
    × ((apply_event_to_pool_state small_hex small_address 77 sync_event
            (classic_pool 11 1_000 1_000)).1
          ≡ ok true
        → ◌≡◌ {A = ℕ} 11 11)
    × (◌≢◌ {A = ℕ} 11 11
        → apply_event_to_pool_state small_hex small_address 77 sync_event
            (classic_pool 11 1_000 1_000)
          ≡ (classic_pool 11 1_000 1_000, ok false))
apply_event_to_pool_state-Applies_example =
    apply_event_to_pool_state-Applies small_hex small_address 77 sync_event
      (classic_pool 11 1_000 1_000)

abbrev pool : PoolId
pool = record { chain_id = 8_453; address = 11 }

abbrev tick_state : ℤ → ℤ → ℕ → ℕ → ℕ → TickState
tick_state tick net gross block_number updated_at = record {
  pool_id = pool;
  tick = tick;
  liquidity_net = net;
  liquidity_gross = gross;
  block_number = block_number;
  updated_at = updated_at;
}

-- A tick at -10 is stored; a position from -10 to 20 comes and goes.
abbrev stored_ticks : List TickState
stored_ticks = tick_state (negsuc 9) (pos 7) 7 1 1 ∷ []

abbrev minted_ticks : List TickState
minted_ticks =
    tick_state (negsuc 9) (pos 107) 107 5 50 ∷ tick_state (pos 20) (negsuc 99) 100 5 50 ∷ []

abbrev burned_ticks : List TickState
burned_ticks = tick_state (negsuc 9) (pos 7) 7 6 60 ∷ []

minted_ticks-eq :
    apply_tick_deltas pool 5 50 (position_deltas true (negsuc 9) (pos 20) 100) stored_ticks
    ≡ ok (some minted_ticks)
unfolding apply_tick_deltas position_deltas apply_delta checked_add_i128 tick_at
    apply_signed_u256_delta set_tick sort
minted_ticks-eq = refl

burned_ticks-eq :
    apply_tick_deltas pool 6 60 (position_deltas false (negsuc 9) (pos 20) 100) minted_ticks
    ≡ ok (some burned_ticks)
unfolding apply_tick_deltas position_deltas apply_delta checked_add_i128 tick_at
    apply_signed_u256_delta set_tick sort swap_remove
burned_ticks-eq = refl

stored_ticks-Standing : (t : ℤ) → Standing (liquidity_at stored_ticks t)
unfolding tick_at
stored_ticks-Standing t = elim (Bool-cases (eq_ℤ (negsuc 9) t)) [
  | inl e ↦ rw e (omega arith)
  | inr e ↦ rw e tt
]

mint_then_burn_example : liquidity_at burned_ticks (negsuc 9) ≡ liquidity_at stored_ticks (negsuc 9)
unfolding tick_at
mint_then_burn_example =
    mint_then_burn pool 5 50 6 60 100 (negsuc 9) (pos 20) stored_ticks minted_ticks burned_ticks
      (refl, tt) stored_ticks-Standing (λ e. cc (e)) minted_ticks-eq burned_ticks-eq (negsuc 9)

abbrev behind : List PoolState
behind =
    classic_pool 11 1_000 1_000 ∷ record (classic_pool 12 1 1) { valid_through_block = 20 } ∷ []

advance_valid_through_block_lem_example :
    (map effective_valid_through_block (advance_valid_through_block behind 9).0
      ≡ map (λ s. max (effective_valid_through_block s) 9) behind)
    × ((advance_valid_through_block behind 9).1
        ≡ map
            (λ s. s.pool_id.address)
            (retain (λ s. ltb (effective_valid_through_block s) 9) behind))
advance_valid_through_block_lem_example = advance_valid_through_block_lem behind 9
