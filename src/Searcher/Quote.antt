-- ===== src/Searcher/Quote.antt =====
-- crates/searcher/src/strategy.rs: quoting a path, `quote_path`. A quote runs through the pools of the
-- path, each leg's output the next leg's input.
pub mod Chain
use Prim.Native.String.{String}
use text.Mathlib.Text.{◌==◌ as ◌===◌}
use dexmoney.Prelude.{
  ℕ, ◌+◌, ◌%◌, ◌^◌, max, Bool, false, ◌&&◌, ◌||◌, Option, none, some, Result, ok, err, List, [],
  ◌∷◌, ◌++◌, ltb, ◌==◌, if◌then◌else◌, unwrap_or, ok_or, map_err, length, ◌>>=◌, any, not,
}
use dexmoney.Common.Errors.{ArbBotError}
use dexmoney.Common.Pool.{
  Address, PoolState, PoolVariant, TickState, QuoteResult, effective_valid_through_block,
}
use dexmoney.Common.Opportunity.{SwapStep, ArbPath, QuoteDiagnostics, QuoteStepDiagnostics}
use dexmoney.Dex.Volatile
use dexmoney.Dex.Stable
use dexmoney.Dex.V3.{quote_exact_in_with_ticks_diagnostics, is_empty}
use dexmoney.Searcher.Impact.{
  HaircutError, is_v3_style_variant, apply_quote_haircut, estimate_price_impact_bps,
}

pub data QuoteSkipReason : Type 0 where
  missing_state missing_ticks tick_range_exhausted quote_error : QuoteSkipReason

-- What a skipped quote says: a text, a text that names a pool, or an error's.
pub data SkipMessage : Type 0 where
  said : String → SkipMessage
  naming : String → Address → SkipMessage
  told : ArbBotError → SkipMessage
  cut : HaircutError → SkipMessage

pub record QuoteSkip : Type 0 where
  pub reason : QuoteSkipReason
  pub message : SkipMessage
  pub repair_pools : List Address

abbrev pub Quoted {ℓ} : Type ℓ → Type ℓ
Quoted A = Result QuoteSkip A

unfoldable pub skip_for : QuoteSkipReason → SkipMessage → List Address → QuoteSkip
skip_for reason message repair_pools = record {
  reason = reason;
  message = message;
  repair_pools = repair_pools;
}

unfoldable pub failed_quote : SkipMessage → QuoteSkip
failed_quote message = skip_for QuoteSkipReason.quote_error message []

-- What the quotes of a search share: the known pools and ticks, the settings, and two quoters outside
-- the model, the weighted Balancer formula on floating-point numbers and the router asked on chain.
pub record QuoteContext : Type 0 where
  pub pool_state : Address → Option PoolState
  pub pool_ticks : Address → Option (List TickState)
  pub v3_quote_safety_bps : ℕ
  pub balancer_v3_runtime_quote_enabled : Bool
  pub balancer_v3_router : Option Address
  pub balancer_query_sender : Address
  pub quote_balancer_weighted_exact_in : PoolState → Address → Address → ℕ → Result String ℕ
  -- the chain provider's query: router, pool, tokens, amount, sender
  pub query_balancer_v3_swap_exact_in :
      Option (Address → Address → Address → Address → ℕ → Address → Result String ℕ)

-- What quoting a leg yields beside the diagnostics.
pub record Leg : Type 0 where
  pub result : QuoteResult
  pub mode : String
  pub tick_count : ℕ
  pub ticks_used : ℕ
  pub crossed_ticks : ℕ
  pub tick_range_exhausted : Bool

unfoldable pub plain_leg : String → QuoteResult → Leg
plain_leg mode result = record {
  result = result;
  mode = mode;
  tick_count = 0;
  ticks_used = 0;
  crossed_ticks = 0;
  tick_range_exhausted = false;
}

unfoldable pub is_weighted : PoolState → Bool
is_weighted state = elim state.balancer_model [ some model ↦ model === "weighted" | none ↦ false ]

module _ (context : QuoteContext) where
  unfoldable pub quote_classic : PoolState → SwapStep → ℕ → Quoted Leg
  quote_classic state step amount =
      if unwrap_or state.stable false
      then (do
        result ←
            map_err (λ e. failed_quote (told e)) (Stable.quote_exact_in state step.token_in amount)
        ok (plain_leg "classic_stable" result))
      else (do
        result ←
            map_err (λ e. failed_quote (told e))
              (Volatile.quote_exact_in state step.token_in amount)
        ok (plain_leg "classic_volatile" result))

  unfoldable pub quote_v3 : PoolState → SwapStep → ℕ → Quoted Leg
  quote_v3 state step amount =
      let ticks = unwrap_or (context.pool_ticks state.pool_id.address) [] in
      if is_empty ticks
      then err (
          skip_for QuoteSkipReason.missing_ticks
            (naming "initialized tick data missing for" state.pool_id.address)
            (state.pool_id.address ∷ []))
      else (do
        found ←
            map_err (λ e. failed_quote (told e))
              (quote_exact_in_with_ticks_diagnostics state ticks step.token_in amount)
        ok (record {
          result = found.0;
          mode = "v3_cross_tick";
          tick_count = length ticks % 2 ^ 32;
          ticks_used = found.1.ticks_used;
          crossed_ticks = found.1.crossed_ticks;
          tick_range_exhausted = found.1.tick_range_exhausted;
        }))

  unfoldable pub balancer_leg : String → ℕ → ℕ → Leg
  balancer_leg mode amount amount_out =
      plain_leg mode (record { amount_in = amount; amount_out = amount_out; gas_estimate = none })

  unfoldable pub quote_balancer : PoolState → SwapStep → ℕ → Quoted Leg
  quote_balancer state step amount =
      if is_weighted state
      then (do
        amount_out ←
            map_err (λ e. failed_quote (said e))
              (context.quote_balancer_weighted_exact_in state step.token_in step.token_out amount)
        ok (balancer_leg "balancer_v3_weighted_local" amount amount_out))
      else if not context.balancer_v3_runtime_quote_enabled
      then err
          (failed_quote (said "Balancer V3 local model missing and runtime router quote disabled"))
      else (do
        router ←
            ok_or context.balancer_v3_router
              (failed_quote (said "BALANCER_V3_ROUTER is required for Balancer V3 quote"))
        query ←
            ok_or context.query_balancer_v3_swap_exact_in
              (failed_quote (said "chain provider is required for Balancer V3 quote"))
        amount_out ←
            map_err (λ e. failed_quote (said e))
              (query router state.pool_id.address step.token_in step.token_out amount
                context.balancer_query_sender)
        ok (balancer_leg "balancer_v3_router_query" amount amount_out))

  unfoldable pub quote_variant : PoolVariant → PoolState → SwapStep → ℕ → Quoted Leg
  quote_variant PoolVariant.aerodrome_volatile state step amount = quote_classic state step amount
  quote_variant PoolVariant.balancer_v3 state step amount = quote_balancer state step amount
  quote_variant PoolVariant.aerodrome_slipstream state step amount = quote_v3 state step amount
  quote_variant PoolVariant.uniswap_v3 state step amount = quote_v3 state step amount
  quote_variant PoolVariant.pancake_v3 state step amount = quote_v3 state step amount
  quote_variant PoolVariant.uniswap_v4 state step amount = quote_v3 state step amount

  -- The leg's output after the haircut of the V3 quotes.
  unfoldable pub cut_leg : PoolState → ℕ → Quoted ℕ
  cut_leg state amount_out =
      if is_v3_style_variant state.variant && ltb 0 context.v3_quote_safety_bps
      then map_err (λ e. failed_quote (cut e))
          (apply_quote_haircut amount_out context.v3_quote_safety_bps)
      else ok amount_out

-- Where the quote of a path stands: the legs so far, the amount that came out of them.
pub record Progress : Type 0 where
  pub step_index : ℕ
  pub amount : ℕ
  pub max_impact : ℕ
  pub diagnostics : QuoteDiagnostics

unfoldable pub step_diagnostics : ℕ → PoolState → SwapStep → ℕ → Leg → ℕ → QuoteStepDiagnostics
step_diagnostics step_index state step amount_before leg amount_out = record {
  step_no = (step_index + 1) % 2 ^ 32;
  mode = leg.mode;
  pool = state.pool_id.address;
  variant = state.variant;
  source_block = state.block_number;
  valid_through_block = effective_valid_through_block state;
  state_updated_at = state.updated_at;
  token_in = step.token_in;
  token_out = step.token_out;
  amount_in = amount_before;
  amount_out_raw = leg.result.amount_out;
  amount_out = amount_out;
  fee_bps = state.fee_bps;
  fee_pips = state.fee_pips;
  stable = state.stable;
  tick_spacing = state.tick_spacing;
  sqrt_price_x96 = state.sqrt_price_x96;
  liquidity = state.liquidity;
  tick = state.tick;
  reserve0 = state.reserve0;
  reserve1 = state.reserve1;
  tick_count = leg.tick_count;
  ticks_used = leg.ticks_used;
  crossed_ticks = leg.crossed_ticks;
  tick_range_exhausted = leg.tick_range_exhausted;
}

-- The diagnostics with a leg's; the counters are u32's.
unfoldable pub add_leg : QuoteDiagnostics → Leg → QuoteStepDiagnostics → QuoteDiagnostics
add_leg diagnostics leg step = record {
  modes = diagnostics.modes ++ (leg.mode ∷ []);
  ticks_used = (diagnostics.ticks_used + leg.ticks_used) % 2 ^ 32;
  crossed_ticks = (diagnostics.crossed_ticks + leg.crossed_ticks) % 2 ^ 32;
  tick_range_exhausted = diagnostics.tick_range_exhausted || leg.tick_range_exhausted;
  v3_pools_without_ticks = diagnostics.v3_pools_without_ticks;
  steps = diagnostics.steps ++ (step ∷ []);
}

unfoldable pub start_progress : ℕ → Progress
start_progress amount_in = record {
  step_index = 0;
  amount = amount_in;
  max_impact = 0;
  diagnostics = record {
    modes = [];
    ticks_used = 0;
    crossed_ticks = 0;
    tick_range_exhausted = false;
    v3_pools_without_ticks = 0;
    steps = [];
  };
}

-- The pools, each once, whose known ticks ran out.
unfoldable pub repair_pools_from : List Address → List QuoteStepDiagnostics → List Address
repair_pools_from seen [] = []
repair_pools_from seen (step ∷ steps) =
    let after = repair_pools_from (step.pool ∷ seen) steps in
    let same = repair_pools_from seen steps in
    if step.tick_range_exhausted && is_v3_style_variant step.variant
    then (if any (λ pool. pool == step.pool) seen then same else step.pool ∷ after)
    else same

unfoldable pub tick_repair_pools_from_diagnostics : QuoteDiagnostics → List Address
tick_repair_pools_from_diagnostics diagnostics = repair_pools_from [] diagnostics.steps

-- What follows the loop.
unfoldable pub conclude_quote : Progress → Quoted (Option (ℕ × ℕ × QuoteDiagnostics))
conclude_quote progress =
    if ltb 0 progress.diagnostics.v3_pools_without_ticks
    then err
        (skip_for QuoteSkipReason.missing_ticks (said "V3 initialized tick data unavailable") [])
    else if progress.diagnostics.tick_range_exhausted
    then err (
        skip_for QuoteSkipReason.tick_range_exhausted (said "V3 quote exhausted known tick range")
          (tick_repair_pools_from_diagnostics progress.diagnostics))
    else ok (some (progress.amount, progress.max_impact, progress.diagnostics))

module _ (context : QuoteContext) where
  unfoldable pub known_pool : SwapStep → Quoted PoolState
  known_pool step =
      ok_or (context.pool_state step.pool)
        (skip_for QuoteSkipReason.missing_state (naming "pool state missing for" step.pool) [])

  unfoldable pub quote_step : SwapStep → Progress → Quoted Progress
  quote_step step progress = do
    state ← known_pool step
    leg ← quote_variant context state.variant state step progress.amount
    amount_out ← cut_leg context state leg.result.amount_out
    let paid = record leg.result { amount_out = amount_out }
    ok (record {
      step_index = progress.step_index + 1;
      amount = amount_out;
      max_impact = max progress.max_impact (estimate_price_impact_bps state step.token_in paid);
      diagnostics =
          add_leg progress.diagnostics leg
            (step_diagnostics progress.step_index state step progress.amount leg amount_out);
    })

  unfoldable pub quote_steps : List SwapStep → Progress → Quoted Progress
  quote_steps [] progress = ok progress
  quote_steps (step ∷ steps) progress = quote_step step progress >>= quote_steps steps

  -- The first loop: every pool of the path is known.
  unfoldable pub all_known : List SwapStep → Quoted (Unit {0})
  all_known [] = ok tt
  all_known (step ∷ steps) = known_pool step >>= λ state. all_known steps

  unfoldable pub quote_path : ArbPath → ℕ → Quoted (Option (ℕ × ℕ × QuoteDiagnostics))
  quote_path path amount_in = do
    present ← all_known path.steps
    progress ← quote_steps path.steps (start_progress amount_in)
    conclude_quote progress
