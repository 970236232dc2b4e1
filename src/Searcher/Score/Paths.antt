-- ===== src/Searcher/Score/Paths.antt =====
-- A path that is scored is that of the cycle that was scored.
use Prim.Native.String.{String}
use dexmoney.Prelude.{
  ℕ, Bool, true, false, Option, none, some, Result, List, ◌==◌, ◌≡◌, refl, inl, inr, Bool-cases,
}
use dexmoney.Common.Pool.{Address, PoolState}
use dexmoney.Searcher.Graph.{GraphSnapshot, OwnedPoolEdge}
use dexmoney.Searcher.CyclePath.{AnchorSearchConfig, build_dynamic_multihop_search_path}
use dexmoney.Searcher.Score.{
  ScanStats, ScoredDynamicPath, Failure, Scoring, score_dynamic_multihop_path, conclude_scoring,
  score_amounts, start_scoring, conclude_unscored,
}
use dexmoney.Searcher.Rough.{should_include_rough_quote_failure}

module _ (quote_balancer_weighted_exact_in : PoolState → Address → Address → ℕ → Result String ℕ)
    (graph : GraphSnapshot) where
  module _ (anchor : AnchorSearchConfig) (edges : List OwnedPoolEdge) where
    -- A scored path is that of the cycle.
    abbrev pub OfCycle : Option ScoredDynamicPath → Type 0
    OfCycle none = Unit
    OfCycle (some p) = p.path ≡ build_dynamic_multihop_search_path graph anchor edges

    conclude_unscored-OfCycle :
        (failure : Option Failure) (below_min : Bool) (stats : ScanStats)
        → OfCycle
            (conclude_unscored quote_balancer_weighted_exact_in graph anchor edges failure below_min
              stats).0
    unfolding conclude_unscored
    conclude_unscored-OfCycle (some (reason, variant)) below_min stats =
        elim (Bool-cases (should_include_rough_quote_failure reason (some variant))) [
          | inl e ↦ rw e refl
          | inr e ↦ rw e tt
        ]
    conclude_unscored-OfCycle none true stats = tt
    conclude_unscored-OfCycle none false stats = tt

    conclude_scoring-OfCycle :
        (scoring : Option Scoring) (stats : ScanStats)
        → OfCycle
            (conclude_scoring quote_balancer_weighted_exact_in graph anchor edges scoring stats).0
    unfolding conclude_scoring
    conclude_scoring-OfCycle none stats = tt
    conclude_scoring-OfCycle (some s) stats = elim (Bool-cases (s.best_score_bps == 0)) [
      | inl e ↦ rw e (conclude_unscored-OfCycle s.quote_failure s.below_min stats)
      | inr e ↦ rw e refl
    ]

    pub score-OfCycle :
        (stats : ScanStats)
        → OfCycle
            (score_dynamic_multihop_path quote_balancer_weighted_exact_in graph anchor edges
              stats).0
    unfolding score_dynamic_multihop_path
    score-OfCycle stats =
        conclude_scoring-OfCycle
          (score_amounts quote_balancer_weighted_exact_in graph anchor edges anchor.amount_sizes
            start_scoring)
          stats

  -- The scored path of a cycle, if there is one.
  pub scored-path :
      (anchor : AnchorSearchConfig) (edges : List OwnedPoolEdge) (scored : Option ScoredDynamicPath)
      {p : ScoredDynamicPath}
      → OfCycle anchor edges scored
      → scored ≡ some p
      → p.path ≡ build_dynamic_multihop_search_path graph anchor edges
  scored-path anchor edges none of e = cc
  scored-path anchor edges (some q) of e = cc (of, e)
