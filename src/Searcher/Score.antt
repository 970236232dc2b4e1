-- ===== src/Searcher/Score.antt =====
-- crates/searcher/src/strategy.rs: the rough score of a cycle, `score_dynamic_multihop_path`, and the
-- statistics of a scan. The samples kept for the log are left out.
pub mod Paths
use Prim.Native.String.{String}
use dexmoney.Prelude.{
  ℕ, ◌+◌, ◌-◌, ◌/◌, Bool, true, false, ◌&&◌, ◌||◌, Option, none, some, Result, ok, err, List, [],
  ◌∷◌, ltb, ◌==◌, if◌then◌else◌, and_then,
}
use dexmoney.Word.{checked_mul}
use dexmoney.Common.Pool.{Address, PoolState, PoolVariant}
use dexmoney.Searcher.Search.{SearchPath}
use dexmoney.Searcher.Graph.{GraphSnapshot, OwnedPoolEdge, state}
use dexmoney.Searcher.Rough.{
  RoughQuoteFailure, rough_quote_edge_upper_bound, should_include_rough_quote_failure,
}
use dexmoney.Searcher.CyclePath.{AnchorSearchConfig, build_dynamic_multihop_search_path}

pub record ScoredDynamicPath : Type 0 where
  pub path : SearchPath
  pub score_bps : ℕ
  pub estimated_profit : ℕ

-- The counters of `SearchStats` that a scan moves, without their prefix `dynamic_multihop_`.
pub record ScanStats : Type 0 where
  pub paths : ℕ
  pub anchors : ℕ
  pub changed_edges : ℕ
  pub prefix_empty : ℕ
  pub suffix_empty : ℕ
  pub invalid_cycle : ℕ
  pub duplicate_cycle : ℕ
  pub rough_quote_failed : ℕ
  pub rough_missing_reserves : ℕ
  pub rough_token_mismatch : ℕ
  pub rough_missing_decimals : ℕ
  pub rough_stable_quote_failed : ℕ
  pub rough_v2_quote_failed : ℕ
  pub rough_balancer_quote_failed : ℕ
  pub rough_missing_v3_state : ℕ
  pub rough_v3_spot_quote_failed : ℕ
  pub rough_v3_spot_overflow : ℕ
  pub rough_unsupported_pool : ℕ
  pub rough_zero_output : ℕ
  pub rough_quote_included : ℕ
  pub rough_quote_dropped : ℕ
  pub rough_profit_below_min : ℕ
  pub candidate_cap_hit : ℕ
  pub priority_edges : ℕ
  pub priority_edges_dropped : ℕ

abbrev pub no_scan_stats : ScanStats
no_scan_stats = record {
  paths = 0;
  anchors = 0;
  changed_edges = 0;
  prefix_empty = 0;
  suffix_empty = 0;
  invalid_cycle = 0;
  duplicate_cycle = 0;
  rough_quote_failed = 0;
  rough_missing_reserves = 0;
  rough_token_mismatch = 0;
  rough_missing_decimals = 0;
  rough_stable_quote_failed = 0;
  rough_v2_quote_failed = 0;
  rough_balancer_quote_failed = 0;
  rough_missing_v3_state = 0;
  rough_v3_spot_quote_failed = 0;
  rough_v3_spot_overflow = 0;
  rough_unsupported_pool = 0;
  rough_zero_output = 0;
  rough_quote_included = 0;
  rough_quote_dropped = 0;
  rough_profit_below_min = 0;
  candidate_cap_hit = 0;
  priority_edges = 0;
  priority_edges_dropped = 0;
}

unfoldable pub record_rough_quote_failure : RoughQuoteFailure → ScanStats → ScanStats
record_rough_quote_failure RoughQuoteFailure.missing_reserves s = record s {
  rough_missing_reserves = s.rough_missing_reserves + 1;
}
record_rough_quote_failure RoughQuoteFailure.token_mismatch s = record s {
  rough_token_mismatch = s.rough_token_mismatch + 1;
}
record_rough_quote_failure RoughQuoteFailure.missing_decimals s = record s {
  rough_missing_decimals = s.rough_missing_decimals + 1;
}
record_rough_quote_failure RoughQuoteFailure.stable_quote_failed s = record s {
  rough_stable_quote_failed = s.rough_stable_quote_failed + 1;
}
record_rough_quote_failure RoughQuoteFailure.v2_quote_failed s = record s {
  rough_v2_quote_failed = s.rough_v2_quote_failed + 1;
}
record_rough_quote_failure RoughQuoteFailure.balancer_quote_failed s = record s {
  rough_balancer_quote_failed = s.rough_balancer_quote_failed + 1;
}
record_rough_quote_failure RoughQuoteFailure.missing_v3_state s = record s {
  rough_missing_v3_state = s.rough_missing_v3_state + 1;
}
record_rough_quote_failure RoughQuoteFailure.v3_spot_quote_failed s = record s {
  rough_v3_spot_quote_failed = s.rough_v3_spot_quote_failed + 1;
}
record_rough_quote_failure RoughQuoteFailure.v3_spot_overflow s = record s {
  rough_v3_spot_overflow = s.rough_v3_spot_overflow + 1;
}
record_rough_quote_failure RoughQuoteFailure.unsupported_pool s = record s {
  rough_unsupported_pool = s.rough_unsupported_pool + 1;
}
record_rough_quote_failure RoughQuoteFailure.zero_output s = record s {
  rough_zero_output = s.rough_zero_output + 1;
}

-- A failed rough quote with the variant of the pool that failed.
abbrev pub Failure : Type 0
Failure = RoughQuoteFailure × PoolVariant

-- The variables of the loop over amounts.
pub record Scoring : Type 0 where
  pub best_score_bps : ℕ
  pub best_profit : ℕ
  pub quote_failure : Option Failure
  pub below_min : Bool

abbrev pub start_scoring : Scoring
start_scoring = record {
  best_score_bps = 0;
  best_profit = 0;
  quote_failure = none;
  below_min = false;
}

-- `get_or_insert`
unfoldable pub get_or_insert : Option Failure → Failure → Option Failure
get_or_insert none failure = some failure
get_or_insert (some first) failure = some first

-- A score is better by its rate, then by its profit.
unfoldable pub keep_better : ℕ → ℕ → Scoring → Scoring
keep_better score_bps estimated_profit s =
    if ltb s.best_score_bps score_bps
      || (score_bps == s.best_score_bps && ltb s.best_profit estimated_profit)
    then record s { best_score_bps = score_bps; best_profit = estimated_profit }
    else s

-- The score of a cycle's output for an input that is not 0; none where it does not fit, which ends the
-- scoring of the cycle.
unfoldable pub score_output : ℕ → ℕ → ℕ → Scoring → Option Scoring
unfolding keep_better
score_output min_profit amount_in amount s =
    let estimated_profit = amount - amount_in in
    if ltb estimated_profit min_profit
    then some (record s { below_min = true })
    else and_then (checked_mul amount 10_000)
        (λ value. some (keep_better (value / amount_in) estimated_profit s))

unfoldable pub score_result : ℕ → ℕ → Result Failure ℕ → Scoring → Option Scoring
unfolding get_or_insert
score_result min_profit amount_in (err failure) s =
    some (record s { quote_failure = get_or_insert s.quote_failure failure })
score_result min_profit amount_in (ok amount) s = score_output min_profit amount_in amount s

module _ (quote_balancer_weighted_exact_in : PoolState → Address → Address → ℕ → Result String ℕ)
    (graph : GraphSnapshot) where
  -- A rough quote that is 0 is a failure too.
  unfoldable pub rough_leg :
      OwnedPoolEdge → PoolState → Result RoughQuoteFailure ℕ → Result Failure ℕ
  rough_leg edge st (err reason) = err (reason, st.variant)
  rough_leg edge st (ok amount) =
      if amount == 0 then err (RoughQuoteFailure.zero_output, st.variant) else ok amount

  -- The loop over the edges. An edge whose index is out of range would end the process; it is passed
  -- over here.
  unfoldable pub rough_cycle : List OwnedPoolEdge → ℕ → Result Failure ℕ
  unfolding rough_leg
  rough_cycle [] amount = ok amount
  rough_cycle (edge ∷ edges) amount = elim (state graph edge) [
    | none ↦ rough_cycle edges amount
    | some st ↦
        elim (rough_leg edge st
          (rough_quote_edge_upper_bound quote_balancer_weighted_exact_in edge st amount)) [
            | err failure ↦ err failure
            | ok next_amount ↦ rough_cycle edges next_amount
          ]
  ]

  module _ (anchor : AnchorSearchConfig) (edges : List OwnedPoolEdge) where
    unfoldable pub score_amounts : List ℕ → Scoring → Option Scoring
    unfolding score_result rough_cycle
    score_amounts [] s = some s
    score_amounts (amount_in ∷ amounts) s =
        let rest = score_amounts amounts in
        if amount_in == 0
        then rest s
        else and_then (score_result anchor.min_profit amount_in (rough_cycle edges amount_in) s)
            rest

    abbrev scored : ℕ → ℕ → Option ScoredDynamicPath
    scored score_bps estimated_profit = some (record {
      path = build_dynamic_multihop_search_path graph anchor edges;
      score_bps = score_bps;
      estimated_profit = estimated_profit;
    })

    -- The counters of a failed rough quote.
    unfoldable pub count_failure : Failure → ScanStats → ScanStats
    count_failure (reason, variant) stats =
        let counted =
          record_rough_quote_failure reason
            (record stats { rough_quote_failed = stats.rough_quote_failed + 1 }) in
        if should_include_rough_quote_failure reason (some variant)
        then record counted { rough_quote_included = counted.rough_quote_included + 1 }
        else record counted { rough_quote_dropped = counted.rough_quote_dropped + 1 }

    unfoldable pub conclude_unscored :
        Option Failure → Bool → ScanStats → Option ScoredDynamicPath × ScanStats
    unfolding count_failure
    conclude_unscored (some (reason, variant)) below_min stats = (
      if should_include_rough_quote_failure reason (some variant) then scored 1 0 else none,
      count_failure (reason, variant) stats,
    )
    conclude_unscored none true stats =
        (none, record stats { rough_profit_below_min = stats.rough_profit_below_min + 1 })
    conclude_unscored none false stats = (none, stats)

    unfoldable pub conclude_scoring :
        Option Scoring → ScanStats → Option ScoredDynamicPath × ScanStats
    unfolding conclude_unscored
    conclude_scoring none stats = (none, stats)
    conclude_scoring (some s) stats =
        if s.best_score_bps == 0
        then conclude_unscored s.quote_failure s.below_min stats
        else (scored s.best_score_bps s.best_profit, stats)

    unfoldable pub score_dynamic_multihop_path : ScanStats → Option ScoredDynamicPath × ScanStats
    unfolding conclude_scoring score_amounts
    score_dynamic_multihop_path stats =
        conclude_scoring (score_amounts anchor.amount_sizes start_scoring) stats
