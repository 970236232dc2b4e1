-- ===== src/MarketData/Ticks.antt =====
-- crates/market-data/src/listener.rs: `apply_tick_deltas`, from the stored ticks of a pool to those that
-- replace them.
pub mod Lookup
pub mod Change
pub mod RoundTrip
use dexmoney.Prelude.{
  ℕ, suc, ◌+◌, ◌-◌, ◌^◌, Bool, ◌&&◌, Option, none, some, ok, ◌>>=◌, ok_or, List, [], ◌∷◌, ◌++◌, leb,
  ltb, ◌==◌, if◌then◌else◌, unwrap_or,
}
use dexmoney.Prelude.Int.{ℤ, pos, negsuc, pos_part, neg_part, leb_ℤ}
use dexmoney.Prelude.Sorting.{sort}
use dexmoney.Word.{checked_add}
use dexmoney.Common.Pool.{PoolId, TickState}
use dexmoney.MarketData.Decode.{Decoded}
use dexmoney.MarketData.Events.{TickDelta}

abbrev pub eq_ℤ : ℤ → ℤ → Bool
eq_ℤ a b = pos_part a == pos_part b && neg_part a == neg_part b

abbrev sub_ℕ : ℕ → ℕ → ℤ
sub_ℕ a b = if leb b a then pos (a - b) else negsuc (b - a - 1)

infixl 65 ◌+ℤ◌
unfoldable pub ◌+ℤ◌ : ℤ → ℤ → ℤ
a +ℤ b = sub_ℕ (pos_part a + pos_part b) (neg_part a + neg_part b)

-- `checked_add` of i128
unfoldable pub checked_add_i128 : ℤ → ℤ → Option ℤ
unfolding ◌+ℤ◌
checked_add_i128 a b =
    if ltb (pos_part (a +ℤ b)) (2 ^ 127) && leb (neg_part (a +ℤ b)) (2 ^ 127)
    then some (a +ℤ b)
    else none

unfoldable pub apply_signed_u256_delta : ℕ → ℤ → Decoded ℕ
apply_signed_u256_delta value (pos n) = ok_or (checked_add value n) "liquidity_gross overflow"
apply_signed_u256_delta value (negsuc n) = ok (value - suc n)

-- `iter().position(|tick| tick.tick == t)` with the state that stands there
unfoldable pub tick_at : List TickState → ℤ → Option TickState
tick_at [] t = none
tick_at (s ∷ ticks) t = if eq_ℤ s.tick t then some s else tick_at ticks t

-- `ticks[index] = state` at the first tick t
unfoldable pub set_tick : List TickState → ℤ → TickState → List TickState
set_tick [] t new = []
set_tick (s ∷ ticks) t new = if eq_ℤ s.tick t then new ∷ ticks else s ∷ set_tick ticks t new

-- All but the last element, and the last.
unfoldable pub split_last : TickState → List TickState → List TickState × TickState
split_last s [] = ([], s)
split_last s (next ∷ ticks) = let (front, last) = split_last next ticks in (s ∷ front, last)

-- The rest of a list with its last element in front.
unfoldable pub last_first : List TickState → List TickState
unfolding split_last
last_first [] = []
last_first (s ∷ ticks) = let (front, last) = split_last s ticks in last ∷ front

-- `swap_remove` at the first tick t: the last element takes its place.
unfoldable pub swap_remove : List TickState → ℤ → List TickState
unfolding last_first
swap_remove [] t = []
swap_remove (s ∷ ticks) t = if eq_ℤ s.tick t then last_first ticks else s ∷ swap_remove ticks t

abbrev pub by_tick : TickState → TickState → Bool
by_tick a b = leb_ℤ a.tick b.tick

module _ (pool_id : PoolId) (block_number : ℕ) (now : ℕ) where
  unfoldable pub new_tick : ℤ → TickState
  new_tick t = record {
    pool_id = pool_id;
    tick = t;
    liquidity_net = pos 0;
    liquidity_gross = 0;
    block_number = block_number;
    updated_at = now;
  }

  -- The changed tick takes the place of the one that was there, which goes if no liquidity is left.
  unfoldable pub store_tick : Option TickState → TickState → List TickState → List TickState
  store_tick (some existing) new ticks =
      if new.liquidity_gross == 0 then swap_remove ticks new.tick else set_tick ticks new.tick new
  store_tick none new ticks = if new.liquidity_gross == 0 then ticks else ticks ++ new ∷ []

  unfoldable pub apply_delta : TickDelta → List TickState → Decoded (List TickState)
  unfolding new_tick store_tick
  apply_delta delta ticks = do
    let existing = tick_at ticks delta.tick
    let tick_state = unwrap_or existing (new_tick delta.tick)
    liquidity_net ←
        ok_or (checked_add_i128 tick_state.liquidity_net delta.liquidity_net_delta)
          "liquidity_net overflow"
    liquidity_gross ← apply_signed_u256_delta tick_state.liquidity_gross delta.liquidity_gross_delta
    ok (
        store_tick existing
          (record tick_state {
            liquidity_net = liquidity_net;
            liquidity_gross = liquidity_gross;
            block_number = block_number;
            updated_at = now;
          })
          ticks)

  unfoldable pub apply_deltas : List TickDelta → List TickState → Decoded (List TickState)
  apply_deltas [] ticks = ok ticks
  apply_deltas (delta ∷ deltas) ticks = do
    ticks' ← apply_delta delta ticks
    apply_deltas deltas ticks'

  -- The ticks that replace the stored ones; nothing is stored where there are no changes.
  unfoldable pub apply_tick_deltas :
      List TickDelta → List TickState → Decoded (Option (List TickState))
  unfolding apply_deltas
  apply_tick_deltas [] ticks = ok none
  apply_tick_deltas (delta ∷ deltas) ticks = do
    ticks' ← apply_deltas (delta ∷ deltas) ticks
    ok (some (sort by_tick ticks'))
