-- ===== src/MarketData/Events.antt =====
-- crates/market-data/src/state_updater.rs: what an event of a pool does to its state. An event is read
-- through its JSON: the topics, each a text or none, where there is such a list, and the data text. An
-- operation returns the state with its result, since an error can leave the state changed.
pub mod Frame
use dexmoney.Prelude.{
  ℕ, zero, suc, Bool, true, false, ◌&&◌, ◌||◌, not, Option, none, some, ok, err, ◌>>=◌, ok_or, List,
  [], ◌∷◌, ltb, ◌==◌, if◌then◌else◌, and_then, length, max, ◌^◌,
}
use dexmoney.Prelude.Int.{ℤ, pos, negate}
use dexmoney.Word.{u256_max, checked_mul, checked_sub, checked_div, saturating_add}
use dexmoney.Common.Pool.{Address, PoolState, PoolVariant, DexKind}
use dexmoney.MarketData.Decode.{
  Text, codes, text_eq, Decoded, decode_i24_topic, decode_balancer_swap, decode_address_topic,
  decode_sync_reserves, decode_v3_swap_state, decode_v3_liquidity_amount,
}

pub record DexEvent : Type 0 where
  pub block_number : ℕ
  pub pool_address : Address
  pub topics : Option (List (Option Text))
  pub payload : Option Text

pub record TickDelta : Type 0 where
  pub tick : ℤ
  pub liquidity_gross_delta : ℤ
  pub liquidity_net_delta : ℤ

unfoldable pub aerodrome_sync_topic : Text
aerodrome_sync_topic = codes "0xcf2aa50876cdfbb541206f89af0ee78d44a2abf8d328e37fa4917f982149848a"

unfoldable pub uniswap_v2_sync_topic : Text
uniswap_v2_sync_topic = codes "0x1c411e9a96e071241c2f21f7726b17ae89e3cab4c78be50e062b03a9fffbbad1"

unfoldable pub v3_swap_topic : Text
v3_swap_topic = codes "0xc42079f94a6350d7e6235f29174924f928cc2ac818eb64fed8004e115fbcca67"

unfoldable pub pancake_v3_swap_topic : Text
pancake_v3_swap_topic = codes "0x19b47279256b2a23a1665c810c8d55a1758940ee09377d4f8d26497a3577dc83"

unfoldable pub v3_mint_topic : Text
v3_mint_topic = codes "0x7a53080ba414158be7ec69b987b5fb7d07dee101fe85488f0853ae16239d0bde"

unfoldable pub v3_burn_topic : Text
v3_burn_topic = codes "0x0c396cd989a39f4459b5fa1aed6a9a8dcdbc45908acfd67e028cd568da98982c"

unfoldable pub balancer_v3_swap_topic : Text
balancer_v3_swap_topic = codes "0x0874b2d545cb271cdbda4e093020c452328b24af12382ed62c4d00f5c26709db"

abbrev pub one_18 : ℕ
one_18 = 1_000_000_000_000_000_000

abbrev is_classic : DexKind → PoolVariant → Bool
is_classic DexKind.aerodrome PoolVariant.aerodrome_volatile = true
is_classic _ _ = false

abbrev is_balancer : DexKind → PoolVariant → Bool
is_balancer DexKind.balancer PoolVariant.balancer_v3 = true
is_balancer _ _ = false

abbrev is_pancake : PoolVariant → Bool
is_pancake PoolVariant.pancake_v3 = true
is_pancake _ = false

abbrev v3_style : DexKind → PoolVariant → Bool
v3_style DexKind.aerodrome PoolVariant.aerodrome_slipstream = true
v3_style DexKind.uniswap_v3 PoolVariant.uniswap_v3 = true
v3_style DexKind.pancake_swap PoolVariant.pancake_v3 = true
v3_style _ _ = false

abbrev pub is_v3_style : PoolState → Bool
is_v3_style state = v3_style state.dex state.variant

abbrev pub first_topic : List (Option Text) → Option Text
first_topic [] = none
first_topic (topic ∷ topics) = topic

-- `get("topics").and_then(|topics| topics.get(0)).and_then(|topic| topic.as_str())`
abbrev pub topic0 : DexEvent → Option Text
topic0 event = and_then event.topics first_topic

abbrev topic_at : List (Option Text) → ℕ → Option Text
topic_at [] index = none
topic_at (topic ∷ topics) zero = topic
topic_at (topic ∷ topics) (suc index) = topic_at topics index

unfoldable pub scale_balancer_raw_amount : PoolState → Bool → ℕ → Decoded ℕ
scale_balancer_raw_amount state token0_side amount_raw = do
  scaling_factor ←
      ok_or (if token0_side then state.balancer_scaling_factor0 else state.balancer_scaling_factor1)
        "Balancer V3 missing decimal scaling factor"
  token_rate ←
      ok_or (if token0_side then state.balancer_token_rate0 else state.balancer_token_rate1)
        "Balancer V3 missing token rate"
  ok_or
      (and_then
        (and_then (checked_mul amount_raw scaling_factor) (λ value. checked_mul value token_rate))
        (λ value. checked_div value one_18))
      "Balancer V3 raw-to-scaled amount overflow"

-- What the checks of a Balancer swap find: its direction, the scaled amounts and the reserves.
unfoldable pub check_balancer_swap :
    PoolState → Address → Address → ℕ → ℕ → Decoded (Bool × ℕ × ℕ × ℕ × ℕ)
check_balancer_swap state token_in token_out amount_in_raw amount_out_raw =
    let forward = token_in == state.token0 && token_out == state.token1 in
    let backward = token_in == state.token1 && token_out == state.token0 in
    if not forward && not backward
    then err "Balancer V3 swap token pair does not match pool state"
    else do
      amount_in_scaled ← scale_balancer_raw_amount state forward amount_in_raw
      amount_out_scaled ← scale_balancer_raw_amount state (not forward) amount_out_raw
      reserve0 ← ok_or state.reserve0 "Balancer V3 missing token0 balance"
      reserve1 ← ok_or state.reserve1 "Balancer V3 missing token1 balance"
      ok (forward, amount_in_scaled, amount_out_scaled, reserve0, reserve1)

-- The reserve paid from is written only if it covers the amount; the other is written before.
unfoldable pub pay_from_reserve1 : Option ℕ → PoolState → PoolState × Decoded (Unit {0})
pay_from_reserve1 none state = (state, err "Balancer V3 token1 balance underflow")
pay_from_reserve1 (some left) state = (record state { reserve1 = some left }, ok tt)

unfoldable pub pay_from_reserve0 : Option ℕ → PoolState → PoolState × Decoded (Unit {0})
pay_from_reserve0 none state = (state, err "Balancer V3 token0 balance underflow")
pay_from_reserve0 (some left) state = (record state { reserve0 = some left }, ok tt)

unfoldable pub move_balances :
    Decoded (Bool × ℕ × ℕ × ℕ × ℕ) → PoolState → PoolState × Decoded (Unit {0})
unfolding pay_from_reserve0 pay_from_reserve1
move_balances (err e) state = (state, err e)
move_balances (ok (forward, amount_in, amount_out, reserve0, reserve1)) state =
    if forward
    then pay_from_reserve1 (checked_sub reserve1 amount_out)
        (record state { reserve0 = some (saturating_add u256_max reserve0 amount_in) })
    else pay_from_reserve0 (checked_sub reserve0 amount_out)
        (record state { reserve1 = some (saturating_add u256_max reserve1 amount_in) })

unfoldable pub apply_balancer_swap_balances :
    Address → Address → ℕ → ℕ → PoolState → PoolState × Decoded (Unit {0})
unfolding check_balancer_swap move_balances
apply_balancer_swap_balances token_in token_out amount_in_raw amount_out_raw state =
    move_balances (check_balancer_swap state token_in token_out amount_in_raw amount_out_raw) state

-- The last writes of an applied event, at the time now.
unfoldable pub mark_applied : ℕ → DexEvent → PoolState → PoolState
mark_applied now event state = record state {
  block_number = event.block_number;
  valid_through_block = max state.valid_through_block event.block_number;
  updated_at = now;
}

unfoldable pub set_reserves : Decoded (ℕ × ℕ) → PoolState → PoolState × Decoded (Unit {0})
set_reserves (err e) state = (state, err e)
set_reserves (ok (reserve0, reserve1)) state =
    (record state { reserve0 = some reserve0; reserve1 = some reserve1 }, ok tt)

unfoldable pub set_v3_state : Decoded (ℕ × ℕ × ℤ) → PoolState → PoolState × Decoded (Unit {0})
set_v3_state (err e) state = (state, err e)
set_v3_state (ok (sqrt_price_x96, liquidity, tick)) state = (
  record state {
    sqrt_price_x96 = some sqrt_price_x96;
    liquidity = some liquidity;
    tick = some tick;
  },
  ok tt,
)

unfoldable pub set_balancer_fee :
    ℕ → PoolState × Decoded (Unit {0}) → PoolState × Decoded (Unit {0})
set_balancer_fee fee (state, ok done) =
    (record state { balancer_swap_fee_percentage = some fee }, ok done)
set_balancer_fee fee (state, err e) = (state, err e)

unfoldable pub apply_balancer_swap :
    Decoded (Address × Address × ℕ × ℕ × ℕ) → PoolState → PoolState × Decoded (Unit {0})
unfolding set_balancer_fee apply_balancer_swap_balances
apply_balancer_swap (err e) state = (state, err e)
apply_balancer_swap (ok (token_in, token_out, amount_in, amount_out, fee)) state =
    set_balancer_fee fee
      (apply_balancer_swap_balances token_in token_out amount_in amount_out state)

-- An update that succeeds is marked, one that fails reports its error.
unfoldable pub conclude_event :
    ℕ → DexEvent → PoolState × Decoded (Unit {0}) → PoolState × Decoded Bool
unfolding mark_applied
conclude_event now event (state, ok done) = (mark_applied now event state, ok true)
conclude_event now event (state, err e) = (state, err e)

module _ (u256_from_hex : Text → Decoded ℕ) (parse_address : Text → Decoded Address) where
  unfoldable pub read_balancer_swap : DexEvent → Text → Decoded (Address × Address × ℕ × ℕ × ℕ)
  read_balancer_swap event payload = do
    topics ← ok_or event.topics "Balancer V3 swap missing topics"
    if ltb (length topics) 4 then err "Balancer V3 Swap missing indexed token topics" else (do
      token_in ← decode_address_topic u256_from_hex parse_address (topic_at topics 2)
      token_out ← decode_address_topic u256_from_hex parse_address (topic_at topics 3)
      amounts ← decode_balancer_swap u256_from_hex parse_address payload
      ok (token_in, token_out, amounts.0, amounts.1, amounts.2))

  -- The branches by the pool's kind and the event's first topic.
  unfoldable pub apply_topic : ℕ → DexEvent → Text → Text → PoolState → PoolState × Decoded Bool
  unfolding conclude_event set_reserves set_v3_state apply_balancer_swap
  apply_topic now event topic payload state =
      if is_classic state.dex state.variant
        && (text_eq topic aerodrome_sync_topic || text_eq topic uniswap_v2_sync_topic)
      then conclude_event now event
          (set_reserves (decode_sync_reserves u256_from_hex parse_address payload) state)
      else if is_v3_style state
          && (text_eq topic v3_swap_topic
              || (is_pancake state.variant && text_eq topic pancake_v3_swap_topic))
      then conclude_event now event
          (set_v3_state (decode_v3_swap_state u256_from_hex parse_address payload) state)
      else if is_balancer state.dex state.variant && text_eq topic balancer_v3_swap_topic
      then conclude_event now event (apply_balancer_swap (read_balancer_swap event payload) state)
      else (state, ok false)

  unfoldable pub apply_payload :
      ℕ → DexEvent → Text → Option Text → PoolState → PoolState × Decoded Bool
  apply_payload now event topic none state = (state, err "pool event missing data")
  apply_payload now event topic (some payload) state = apply_topic now event topic payload state

  unfoldable pub apply_known : ℕ → DexEvent → Option Text → PoolState → PoolState × Decoded Bool
  unfolding apply_payload
  apply_known now event none state = (state, ok false)
  apply_known now event (some topic) state = apply_payload now event topic event.payload state

  unfoldable pub apply_event_to_pool_state : ℕ → DexEvent → PoolState → PoolState × Decoded Bool
  unfolding apply_known
  apply_event_to_pool_state now event state =
      if not (state.pool_id.address == event.pool_address)
      then (state, ok false)
      else apply_known now event (topic0 event) state

abbrev is_liquidity_topic : Text → Bool
is_liquidity_topic topic = text_eq topic v3_mint_topic || text_eq topic v3_burn_topic

abbrev is_liquidity_topic0 : Option Text → Bool
is_liquidity_topic0 none = false
is_liquidity_topic0 (some topic) = is_liquidity_topic topic

unfoldable pub is_v3_liquidity_event : PoolState → DexEvent → Bool
is_v3_liquidity_event state event =
    if not (state.pool_id.address == event.pool_address) || not (is_v3_style state)
    then false
    else is_liquidity_topic0 (topic0 event)

-- `amount.try_into()` to an i128
unfoldable pub to_i128 : ℕ → Decoded ℕ
to_i128 amount =
    if ltb amount (2 ^ 127) then ok amount else err "liquidity amount does not fit i128"

-- The changes of the two ticks of a position whose liquidity grows or falls by an amount.
unfoldable pub position_deltas : Bool → ℤ → ℤ → ℕ → List TickDelta
position_deltas is_mint tick_lower tick_upper amount =
    let gross = if is_mint then pos amount else negate (pos amount) in
    record { tick = tick_lower; liquidity_gross_delta = gross; liquidity_net_delta = gross }
    ∷ record {
      tick = tick_upper;
      liquidity_gross_delta = gross;
      liquidity_net_delta = negate gross;
    }
    ∷ []

module _ (u256_from_hex : Text → Decoded ℕ) (parse_address : Text → Decoded Address) where
  unfoldable pub read_liquidity_event : DexEvent → Bool → Decoded (List TickDelta)
  read_liquidity_event event is_mint = do
    topics ← ok_or event.topics "pool event missing topics"
    if ltb (length topics) 4 then err "V3 Mint/Burn event missing indexed tick topics" else (do
      payload ← ok_or event.payload "pool event missing data"
      tick_lower ← decode_i24_topic (topic_at topics 2)
      tick_upper ← decode_i24_topic (topic_at topics 3)
      raw ← decode_v3_liquidity_amount u256_from_hex parse_address payload is_mint
      amount ← to_i128 raw
      ok (position_deltas is_mint tick_lower tick_upper amount))

  unfoldable pub deltas_of_topic : DexEvent → Option Text → Decoded (List TickDelta)
  deltas_of_topic event none = ok []
  deltas_of_topic event (some topic) =
      if not (is_liquidity_topic topic)
      then ok []
      else read_liquidity_event event (text_eq topic v3_mint_topic)

  unfoldable pub v3_tick_deltas_from_event : PoolState → DexEvent → Decoded (List TickDelta)
  unfolding deltas_of_topic
  v3_tick_deltas_from_event state event =
      if not (state.pool_id.address == event.pool_address) || not (is_v3_style state)
      then ok []
      else deltas_of_topic event (topic0 event)
