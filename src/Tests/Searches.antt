-- ===== src/Tests/Searches.antt =====
-- Quotes and searches of crates/searcher over a path of two pools.
use dexmoney.Prelude.{
  List, ◌++◌, ℕ, ◌+◌, ◌*◌, ◌≡◌, ◌↔◌, refl, ok, err, Bool, false, arith, [], ◌∷◌, none, some,
  if◌then◌else◌, ◌==◌, All, ◌||◌,
}
use dexmoney.Common.Pool.{Address, PoolState, PoolVariant, DexKind, effective_valid_through_block}
use dexmoney.Common.Opportunity.{SwapStep, ArbPath, Candidate, QuoteDiagnostics, OpportunityStatus}
use dexmoney.Dex.Volatile
use dexmoney.Searcher.Impact.{
  is_v3_style_variant, estimate_price_impact_bps, impact_from_spot, priced_impact, reserve_impact,
  oriented_reserves, is_balancer,
}
use dexmoney.Searcher.Quote.{
  QuoteContext, Leg, quote_path, quote_steps, quote_step, known_pool, all_known, quote_variant,
  quote_classic, cut_leg, plain_leg, step_diagnostics, add_leg, start_progress, conclude_quote,
}
use dexmoney.Searcher.Quote.Chain.{Chain, quote_path-Chain}
use dexmoney.Searcher.Search.{
  SearchEngine, SearchPath, Search, no_stats, quote_search_path, required_profit_for_path,
}
use dexmoney.Searcher.Search.Gates.{Balanced, quote_search_path-Balanced}
use dexmoney.Searcher.Search.Emitted.{Worthy, WorthyQuote, quote_search_path-Worthy, Worthy-passes}
use dexmoney.Searcher.Risk.{validate_candidate}
use dexmoney.Searcher.Risk.Gate.{IsListed, AllAvailable, Passes, validate_candidate-Passes}

-- A pool of tokens 1 and 2 with its reserves.
abbrev pub classic_pool : Address → ℕ → ℕ → PoolState
classic_pool address reserve0 reserve1 = record {
  pool_id = record { chain_id = 8_453; address = address };
  dex = DexKind.aerodrome;
  variant = PoolVariant.aerodrome_volatile;
  factory_address = none;
  token0 = 1;
  token1 = 2;
  token0_decimals = none;
  token1_decimals = none;
  fee_bps = 30;
  fee_pips = none;
  pool_key_fee_pips = none;
  hooks_address = none;
  stable = some false;
  reserve0 = some reserve0;
  reserve1 = some reserve1;
  balancer_model = none;
  balancer_weight0 = none;
  balancer_weight1 = none;
  balancer_scaling_factor0 = none;
  balancer_scaling_factor1 = none;
  balancer_token_rate0 = none;
  balancer_token_rate1 = none;
  balancer_swap_fee_percentage = none;
  sqrt_price_x96 = none;
  liquidity = none;
  tick = none;
  tick_spacing = none;
  block_number = 5;
  valid_through_block = 5;
  updated_at = 0;
}

abbrev context : QuoteContext
context = record {
  pool_state = λ pool.
      if pool == 7
      then some (classic_pool 7 100_000 200_000)
      else if pool == 8
      then some (classic_pool 8 100_000 100_000)
      else none;
  pool_ticks = λ pool. none;
  v3_quote_safety_bps = 5;
  balancer_v3_runtime_quote_enabled = false;
  balancer_v3_router = none;
  balancer_query_sender = 0;
  quote_balancer_weighted_exact_in = λ state token_in token_out amount. err "no weights";
  query_balancer_v3_swap_exact_in = none;
}

abbrev hop : Address → Address → Address → SwapStep
hop pool token_in token_out = record {
  dex = DexKind.aerodrome;
  variant = some PoolVariant.aerodrome_volatile;
  factory_address = none;
  pool = pool;
  token_in = token_in;
  token_out = token_out;
  fee_bps = some 30;
  pool_key_fee_pips = none;
  hooks_address = none;
  stable = some false;
  tick_spacing = none;
  adapter_data = none;
}

abbrev path : ArbPath
path = record { name = "round"; steps = hop 7 1 2 ∷ hop 8 2 1 ∷ []; diagnostics = none }

abbrev leg_of : ℕ → ℕ → Leg
leg_of amount_in amount_out =
    plain_leg "classic_volatile"
      (record { amount_in = amount_in; amount_out = amount_out; gas_estimate = none })

abbrev diagnostics : QuoteDiagnostics
diagnostics = record {
  modes = "classic_volatile" ∷ "classic_volatile" ∷ [];
  ticks_used = 0;
  crossed_ticks = 0;
  tick_range_exhausted = false;
  v3_pools_without_ticks = 0;
  steps =
      step_diagnostics 0 (classic_pool 7 100_000 200_000) (hop 7 1 2) 1_000 (leg_of 1_000 1_974)
        1_974
      ∷ step_diagnostics 1 (classic_pool 8 100_000 100_000) (hop 8 2 1) 1_974 (leg_of 1_974 1_930)
          1_930
      ∷ [];
}

quoted : quote_path context path 1_000 ≡ ok (some (1_930, 222, diagnostics))
unfolding quote_path quote_steps quote_step known_pool all_known quote_variant quote_classic cut_leg
    plain_leg step_diagnostics add_leg start_progress conclude_quote Volatile.quote_exact_in
    Volatile.quote_amount_out is_v3_style_variant estimate_price_impact_bps impact_from_spot
    priced_impact reserve_impact oriented_reserves is_balancer effective_valid_through_block
quoted = refl

quote_path-Chain_example : Chain context 1_000 (hop 7 1 2 ∷ hop 8 2 1 ∷ []) diagnostics.steps 1_930
quote_path-Chain_example = quote_path-Chain context path 1_000 1_930 222 diagnostics quoted

abbrev engine : SearchEngine
engine = record {
  min_expected_profit = 100;
  max_price_impact_bps = 300;
  candidate_ttl_ms = 500;
  v3_quote_safety_bps = 5;
  new_v4 = 1;
  now = 10;
  add_milliseconds = λ now ms. now + ms * 1_000_000;
}

abbrev search_path : SearchPath
search_path = record {
  path = path;
  amount_sizes = 1_000 ∷ 2_000 ∷ [];
  min_profit = 0;
  strategy = "pair-two-pool-cycle";
}

abbrev fresh : Search
fresh = record { stats = no_stats; out = [] }

fresh-Balanced : Balanced no_stats
fresh-Balanced = record { quotes = refl; skips = refl; successes = refl }

quote_search_path-Balanced_example :
    Balanced (quote_search_path engine context search_path fresh).stats
quote_search_path-Balanced_example =
    quote_search_path-Balanced engine context search_path fresh fresh-Balanced

abbrev pub candidate : Candidate
candidate = record {
  id = 1;
  created_at = 10;
  expires_at = 20;
  block_number = 5;
  strategy = "pair-two-pool-cycle";
  token_in = 1;
  amount_in = 1_000;
  expected_amount_out = 1_930;
  expected_profit = 930;
  min_profit = 0;
  price_impact_bps = 222;
  path = path;
  status = OpportunityStatus.created;
}

quote_search_path-Worthy_example :
    (emitted : List Candidate) × ((quote_search_path engine context search_path
        (record fresh { out = candidate ∷ [] })).out
      ≡ (candidate ∷ []) ++ emitted)
    × All (WorthyQuote engine search_path context) emitted
quote_search_path-Worthy_example =
    quote_search_path-Worthy engine search_path context (record fresh { out = candidate ∷ [] })

candidate-Worthy : Worthy engine search_path candidate
unfolding required_profit_for_path
candidate-Worthy = record {
  gains = refl;
  profit = omega arith;
  impact = omega arith;
  asks = refl;
  steps = refl;
  edge = λ d h. cc;
}

abbrev available : Address → Bool
available pool = pool == 7 || pool == 8

Worthy-passes_example :
    (validate_candidate candidate available 100 300 ("round" ∷ []) ≡ ok tt)
    ↔ (IsListed ("round" ∷ []) "round" × AllAvailable available path.steps)
Worthy-passes_example =
    Worthy-passes engine search_path candidate available ("round" ∷ []) candidate-Worthy

validate_candidate-Passes_example :
    (validate_candidate candidate available 100 300 ("round" ∷ []) ≡ ok tt)
    ↔ Passes candidate available 100 300 ("round" ∷ [])
validate_candidate-Passes_example =
    validate_candidate-Passes candidate available 100 300 ("round" ∷ [])
