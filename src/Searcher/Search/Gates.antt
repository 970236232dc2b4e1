-- ===== src/Searcher/Search/Gates.antt =====
-- The statistics of a search.
use dexmoney.Prelude.{
  ℕ, ◌+◌, ◌-◌, ◌≡◌, Option, none, some, ok, err, List, [], ◌∷◌, ltb, Bool-cases, inl, inr, arith,
}
use dexmoney.Common.Opportunity.{QuoteDiagnostics}
use dexmoney.Searcher.Impact.{quote_model_edge_floor}
use dexmoney.Searcher.Quote.{QuoteContext, QuoteSkipReason, Quoted, quote_path}
use dexmoney.Searcher.Search.{
  SearchEngine, SearchPath, SearchStats, Search, record_quote_skip, record_min_profit_rejected,
  record_price_impact_rejected, required_profit_for_path, emit, edge_gate, impact_gate, profit_gate,
  skip_quote, take_quote, quote_amount, quote_amounts, quote_search_path,
}

-- Every quote is a success or a skip of one kind, every success is rejected for one reason or emitted.
pub record Balanced (s : SearchStats) : Type 0 where
  pub quotes : s.quote_attempts ≡ s.quote_successes + s.quote_skipped
  pub skips :
      s.quote_skipped
      ≡ s.quote_skipped_missing_state + s.quote_skipped_missing_ticks
        + s.quote_skipped_tick_range_exhausted + s.quote_skipped_error
  pub successes :
      s.quote_successes
      ≡ s.min_profit_rejected + s.price_impact_rejected + s.quote_model_edge_rejected
        + s.candidates_emitted

-- A search whose current quote is not settled yet: the counters that lag behind by one.
data Behind (attempts successes : ℕ) (s : SearchStats) : Type 0 where
  behind :
      s.quote_attempts ≡ s.quote_successes + s.quote_skipped + attempts
      → s.quote_skipped
        ≡ s.quote_skipped_missing_state + s.quote_skipped_missing_ticks
          + s.quote_skipped_tick_range_exhausted + s.quote_skipped_error
      → s.quote_successes
        ≡ s.min_profit_rejected + s.price_impact_rejected + s.quote_model_edge_rejected
          + s.candidates_emitted + successes
      → Behind attempts successes s

record_quote_skip-Balanced :
    (reason : QuoteSkipReason) (s : SearchStats)
    → Behind 1 0 s
    → Balanced (record_quote_skip reason s)
unfolding record_quote_skip
record_quote_skip-Balanced QuoteSkipReason.missing_state s (behind a b c) = record {
  quotes = omega arith;
  skips = omega arith;
  successes = omega arith;
}
record_quote_skip-Balanced QuoteSkipReason.missing_ticks s (behind a b c) = record {
  quotes = omega arith;
  skips = omega arith;
  successes = omega arith;
}
record_quote_skip-Balanced QuoteSkipReason.tick_range_exhausted s (behind a b c) = record {
  quotes = omega arith;
  skips = omega arith;
  successes = omega arith;
}
record_quote_skip-Balanced QuoteSkipReason.quote_error s (behind a b c) = record {
  quotes = omega arith;
  skips = omega arith;
  successes = omega arith;
}

module _ (engine : SearchEngine) (search_path : SearchPath) (amount_in : ℕ) where
  edge_gate-Balanced :
      (out profit impact : ℕ) (d : QuoteDiagnostics) (s : Search)
      → Behind 0 1 s.stats
      → Balanced (edge_gate engine search_path amount_in out profit impact d s).stats
  unfolding edge_gate emit
  edge_gate-Balanced out profit impact d s (behind a b c) =
      elim (Bool-cases
        (ltb profit (quote_model_edge_floor amount_in d engine.v3_quote_safety_bps))) [
          | inl e ↦
              rw e (record { quotes = omega arith; skips = omega arith; successes = omega arith })
          | inr e ↦
              rw e (record { quotes = omega arith; skips = omega arith; successes = omega arith })
        ]

  impact_gate-Balanced :
      (out profit impact : ℕ) (d : QuoteDiagnostics) (s : Search)
      → Behind 0 1 s.stats
      → Balanced (impact_gate engine search_path amount_in out profit impact d s).stats
  unfolding impact_gate record_price_impact_rejected
  impact_gate-Balanced out profit impact d s (behind a b c) =
      elim (Bool-cases (ltb engine.max_price_impact_bps impact)) [
        | inl e ↦
            rw e (record { quotes = omega arith; skips = omega arith; successes = omega arith })
        | inr e ↦ rw e (edge_gate-Balanced out profit impact d _ (behind a b c))
      ]

  profit_gate-Balanced :
      (out profit impact : ℕ) (d : QuoteDiagnostics) (s : Search)
      → Behind 0 1 s.stats
      → Balanced (profit_gate engine search_path amount_in out profit impact d s).stats
  unfolding profit_gate record_min_profit_rejected
  profit_gate-Balanced out profit impact d s (behind a b c) =
      elim (Bool-cases (ltb profit (required_profit_for_path engine search_path))) [
        | inl e ↦
            rw e (record { quotes = omega arith; skips = omega arith; successes = omega arith })
        | inr e ↦ rw e (impact_gate-Balanced out profit impact d s (behind a b c))
      ]

  take_quote-Balanced :
      (q : Quoted (Option (ℕ × ℕ × QuoteDiagnostics))) (s : Search)
      → Behind 1 0 s.stats
      → Balanced (take_quote engine search_path amount_in q s).stats
  unfolding take_quote skip_quote
  take_quote-Balanced (err skip) s h =
      let b = record_quote_skip-Balanced skip.reason s.stats h in
      record { quotes = b.quotes; skips = b.skips; successes = b.successes }
  take_quote-Balanced (ok none) s h =
      let b = record_quote_skip-Balanced QuoteSkipReason.quote_error s.stats h in
      record { quotes = b.quotes; skips = b.skips; successes = b.successes }
  take_quote-Balanced (ok (some (out, impact, d))) s (behind a b c) =
      profit_gate-Balanced out (out - amount_in) impact d _ (behind (omega arith) b (omega arith))

module _ (engine : SearchEngine) (context : QuoteContext) (search_path : SearchPath) where
  quote_amounts-Balanced :
      (amounts : List ℕ) (s : Search)
      → Balanced s.stats
      → Balanced (quote_amounts engine context search_path amounts s).stats
  unfolding quote_amounts quote_amount
  quote_amounts-Balanced [] s b = b
  quote_amounts-Balanced (amount_in ∷ amounts) s b = quote_amounts-Balanced amounts _ (
      take_quote-Balanced engine search_path amount_in
        (quote_path context search_path.path amount_in) _
        (behind (omega (arith, b.quotes)) b.skips (omega (arith, b.successes))))

  -- Quoting a path keeps the statistics in balance: attempts are successes and skips, skips are counted by
  -- reason, and successes are rejected for profit, for impact, for the model's edge, or emitted.
  pub quote_search_path-Balanced :
      (s : Search)
      → Balanced s.stats
      → Balanced (quote_search_path engine context search_path s).stats
  unfolding quote_search_path
  quote_search_path-Balanced s b = quote_amounts-Balanced search_path.amount_sizes s b
