-- ===== src/Searcher/Search.antt =====
-- crates/searcher: from the quotes of a path to candidates, `quote_search_path` of src/strategy.rs and
-- `build_candidate` of src/opportunity.rs. The samples kept for the log are left out of the statistics.
pub mod Gates
pub mod Emitted
use Prim.Native.String.{String}
use dexmoney.Prelude.{
  ℕ, ◌+◌, ◌-◌, max, Option, none, some, ok, err, List, [], ◌∷◌, ◌++◌, ltb, ◌==◌, if◌then◌else◌,
}
use dexmoney.Common.Pool.{Address}
use dexmoney.Common.Opportunity.{
  Uuid, SwapStep, ArbPath, QuoteDiagnostics, OpportunityStatus, Candidate,
}
use dexmoney.Searcher.Impact.{quote_model_edge_floor, candidate_block_number_from_diagnostics}
use dexmoney.Searcher.Quote.{QuoteContext, QuoteSkipReason, Quoted, quote_path}

pub record SearchPath : Type 0 where
  pub path : ArbPath
  pub amount_sizes : List ℕ
  pub min_profit : ℕ
  pub strategy : String

pub record SearchStats : Type 0 where
  pub quote_attempts : ℕ
  pub quote_successes : ℕ
  pub quote_skipped : ℕ
  pub quote_skipped_missing_state : ℕ
  pub quote_skipped_missing_ticks : ℕ
  pub quote_skipped_tick_range_exhausted : ℕ
  pub quote_skipped_error : ℕ
  pub price_impact_rejected : ℕ
  pub quote_model_edge_rejected : ℕ
  pub min_profit_rejected : ℕ
  pub candidates_emitted : ℕ
  pub best_profit_before_impact : ℕ
  pub best_profit_rejected_by_impact : ℕ
  pub best_profit_rejected_by_model_edge : ℕ
  pub best_profit : ℕ
  pub tick_repair_pools : List Address

-- `SearchStats::default()`
abbrev pub no_stats : SearchStats
no_stats = record {
  quote_attempts = 0;
  quote_successes = 0;
  quote_skipped = 0;
  quote_skipped_missing_state = 0;
  quote_skipped_missing_ticks = 0;
  quote_skipped_tick_range_exhausted = 0;
  quote_skipped_error = 0;
  price_impact_rejected = 0;
  quote_model_edge_rejected = 0;
  min_profit_rejected = 0;
  candidates_emitted = 0;
  best_profit_before_impact = 0;
  best_profit_rejected_by_impact = 0;
  best_profit_rejected_by_model_edge = 0;
  best_profit = 0;
  tick_repair_pools = [];
}

unfoldable pub record_quote_skip : QuoteSkipReason → SearchStats → SearchStats
record_quote_skip QuoteSkipReason.missing_state s = record s {
  quote_skipped = s.quote_skipped + 1;
  quote_skipped_missing_state = s.quote_skipped_missing_state + 1;
}
record_quote_skip QuoteSkipReason.missing_ticks s = record s {
  quote_skipped = s.quote_skipped + 1;
  quote_skipped_missing_ticks = s.quote_skipped_missing_ticks + 1;
}
record_quote_skip QuoteSkipReason.tick_range_exhausted s = record s {
  quote_skipped = s.quote_skipped + 1;
  quote_skipped_tick_range_exhausted = s.quote_skipped_tick_range_exhausted + 1;
}
record_quote_skip QuoteSkipReason.quote_error s = record s {
  quote_skipped = s.quote_skipped + 1;
  quote_skipped_error = s.quote_skipped_error + 1;
}

unfoldable pub record_min_profit_rejected : SearchStats → SearchStats
record_min_profit_rejected s = record s { min_profit_rejected = s.min_profit_rejected + 1 }

unfoldable pub record_price_impact_rejected : ℕ → SearchStats → SearchStats
record_price_impact_rejected expected_profit s = record s {
  price_impact_rejected = s.price_impact_rejected + 1;
  best_profit_rejected_by_impact = max s.best_profit_rejected_by_impact expected_profit;
}

-- The part of `SearchEngine` that a search reads, and what `Uuid::new_v4()` and `Utc::now()` return; the
-- times are in nanoseconds, the life time in milliseconds.
pub record SearchEngine : Type 0 where
  pub min_expected_profit : ℕ
  pub max_price_impact_bps : ℕ
  pub candidate_ttl_ms : ℕ
  pub v3_quote_safety_bps : ℕ
  pub new_v4 : Uuid
  pub now : ℕ
  -- the time a number of milliseconds later
  pub add_milliseconds : ℕ → ℕ → ℕ

unfoldable pub build_candidate :
    SearchEngine → ℕ → String → Address → ℕ → ℕ → ℕ → ℕ → ℕ → ArbPath → Candidate
build_candidate engine block_number strategy token_in amount_in expected_amount_out expected_profit
      min_profit price_impact_bps path =
    record {
      id = engine.new_v4;
      created_at = engine.now;
      expires_at = engine.add_milliseconds engine.now engine.candidate_ttl_ms;
      block_number = block_number;
      strategy = strategy;
      token_in = token_in;
      amount_in = amount_in;
      expected_amount_out = expected_amount_out;
      expected_profit = expected_profit;
      min_profit = min_profit;
      price_impact_bps = price_impact_bps;
      path = path;
      status = OpportunityStatus.created;
    }

unfoldable pub path_with_diagnostics : ArbPath → QuoteDiagnostics → ArbPath
path_with_diagnostics path diagnostics = record path { diagnostics = some diagnostics }

unfoldable pub required_profit_for_path : SearchEngine → SearchPath → ℕ
required_profit_for_path engine search_path =
    if search_path.min_profit == 0 then engine.min_expected_profit else search_path.min_profit

-- `search_path.path.steps[0].token_in`; a path has steps, an empty one would end the process.
unfoldable pub first_token : List SwapStep → Address
first_token [] = 0
first_token (step ∷ steps) = step.token_in

-- The statistics and the candidates so far, latest last.
pub record Search : Type 0 where
  pub stats : SearchStats
  pub out : List Candidate

module _ (engine : SearchEngine) (search_path : SearchPath) (amount_in : ℕ) where
  unfoldable pub emit : ℕ → ℕ → ℕ → QuoteDiagnostics → Search → Search
  emit expected_amount_out expected_profit price_impact_bps diagnostics s =
      let candidate =
        build_candidate engine (candidate_block_number_from_diagnostics diagnostics)
          search_path.strategy (first_token search_path.path.steps) amount_in expected_amount_out
          expected_profit engine.min_expected_profit price_impact_bps
          (path_with_diagnostics search_path.path diagnostics) in
      record {
        stats = record s.stats { candidates_emitted = s.stats.candidates_emitted + 1 };
        out = s.out ++ (record candidate { min_profit = search_path.min_profit } ∷ []);
      }

  -- The gates after a quote: profit, impact, and the edge over the model's error.
  unfoldable pub edge_gate : ℕ → ℕ → ℕ → QuoteDiagnostics → Search → Search
  edge_gate expected_amount_out expected_profit price_impact_bps diagnostics s =
      if ltb expected_profit
        (quote_model_edge_floor amount_in diagnostics engine.v3_quote_safety_bps)
      then record s {
        stats = record s.stats {
          quote_model_edge_rejected = s.stats.quote_model_edge_rejected + 1;
          best_profit_rejected_by_model_edge =
              max s.stats.best_profit_rejected_by_model_edge expected_profit;
        };
      }
      else emit expected_amount_out expected_profit price_impact_bps diagnostics s

  unfoldable pub impact_gate : ℕ → ℕ → ℕ → QuoteDiagnostics → Search → Search
  impact_gate expected_amount_out expected_profit price_impact_bps diagnostics s =
      if ltb engine.max_price_impact_bps price_impact_bps
      then record s { stats = record_price_impact_rejected expected_profit s.stats }
      else edge_gate expected_amount_out expected_profit price_impact_bps diagnostics (record s {
        stats = record s.stats { best_profit = max s.stats.best_profit expected_profit };
      })

  unfoldable pub profit_gate : ℕ → ℕ → ℕ → QuoteDiagnostics → Search → Search
  profit_gate expected_amount_out expected_profit price_impact_bps diagnostics s =
      if ltb expected_profit (required_profit_for_path engine search_path)
      then record s { stats = record_min_profit_rejected s.stats }
      else impact_gate expected_amount_out expected_profit price_impact_bps diagnostics s

  unfoldable pub skip_quote : QuoteSkipReason → List Address → Search → Search
  skip_quote reason repair_pools s =
      let stats = record_quote_skip reason s.stats in
      record s {
        stats = record stats { tick_repair_pools = stats.tick_repair_pools ++ repair_pools };
      }

  unfoldable pub take_quote : Quoted (Option (ℕ × ℕ × QuoteDiagnostics)) → Search → Search
  take_quote (err skip) s = skip_quote skip.reason skip.repair_pools s
  take_quote (ok none) s = skip_quote QuoteSkipReason.quote_error [] s
  take_quote (ok (some (expected_amount_out, price_impact_bps, diagnostics))) s =
      let expected_profit = expected_amount_out - amount_in in
      profit_gate expected_amount_out expected_profit price_impact_bps diagnostics (record s {
        stats = record s.stats {
          quote_successes = s.stats.quote_successes + 1;
          best_profit_before_impact = max s.stats.best_profit_before_impact expected_profit;
        };
      })

module _ (engine : SearchEngine) (context : QuoteContext) (search_path : SearchPath) where
  unfoldable pub quote_amount : ℕ → Search → Search
  quote_amount amount_in s =
      take_quote engine search_path amount_in (quote_path context search_path.path amount_in)
        (record s { stats = record s.stats { quote_attempts = s.stats.quote_attempts + 1 } })

  unfoldable pub quote_amounts : List ℕ → Search → Search
  quote_amounts [] s = s
  quote_amounts (amount_in ∷ amounts) s = quote_amounts amounts (quote_amount amount_in s)

  unfoldable pub quote_search_path : Search → Search
  quote_search_path s = quote_amounts search_path.amount_sizes s
