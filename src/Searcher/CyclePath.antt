-- ===== src/Searcher/CyclePath.antt =====
-- crates/searcher/src/strategy.rs: which edges form a cycle, its fingerprint and its path.
pub mod Valid
use Prim.Native.String.{String, ◌++◌ as ◌+++◌}
use dexmoney.Prelude.{
  ℕ, Bool, true, false, ◌&&◌, ◌||◌, not, none, some, List, [], ◌∷◌, map, ◌==◌, if◌then◌else◌,
  length, take,
}
use dexmoney.Prelude.Texts.{join}
use dexmoney.Common.Pool.{Address, PoolState}
use dexmoney.Common.Opportunity.{SwapStep}
use dexmoney.Searcher.Search.{SearchPath}
use dexmoney.Searcher.Graph.{GraphSnapshot, OwnedPoolEdge, state, contains}
use dexmoney.Searcher.Labels.{short_token, address_text, pool_label, swap_step_from_pool, decimal}

pub record AnchorSearchConfig : Type 0 where
  pub token : Address
  pub amount_sizes : List ℕ
  pub min_profit : ℕ

-- The loop over the pools of `is_valid_dynamic_cycle`, from the pools seen.
unfoldable pub distinct_pools : List OwnedPoolEdge → List Address → Bool
distinct_pools [] seen = true
distinct_pools (edge ∷ edges) seen =
    if contains seen edge.pool then false else distinct_pools edges (edge.pool ∷ seen)

-- The loop over all edges but the last, from the intermediate tokens seen.
unfoldable pub distinct_tokens : Address → List OwnedPoolEdge → List Address → Bool
distinct_tokens anchor [] seen = true
distinct_tokens anchor (edge ∷ edges) seen =
    if edge.token_out == anchor || contains seen edge.token_out
    then false
    else distinct_tokens anchor edges (edge.token_out ∷ seen)

-- `last().map(|edge| edge.token_out)`
unfoldable pub last_token : OwnedPoolEdge → List OwnedPoolEdge → Address
last_token edge [] = edge.token_out
last_token edge (next ∷ edges) = last_token next edges

unfoldable pub is_valid_dynamic_cycle : Address → List OwnedPoolEdge → Bool
is_valid_dynamic_cycle anchor [] = false
is_valid_dynamic_cycle anchor (edge ∷ edges) =
    if not (edge.token_in == anchor) || not (last_token edge edges == anchor)
    then false
    else distinct_pools (edge ∷ edges) []
      && distinct_tokens anchor (take (length edges) (edge ∷ edges)) []

unfoldable pub edge_text : OwnedPoolEdge → String
edge_text edge =
    "|"
    +++ address_text edge.pool
    +++ ":"
    +++ address_text edge.token_in
    +++ "->"
    +++ address_text edge.token_out

unfoldable pub cycle_fingerprint : Address → List OwnedPoolEdge → String
unfolding edge_text
cycle_fingerprint anchor edges = address_text anchor +++ join "" (map edge_text edges)

-- The states of the edges. An index out of range would end the process; none has one.
unfoldable pub states_of : GraphSnapshot → List OwnedPoolEdge → List PoolState
states_of graph [] = []
states_of graph (edge ∷ edges) =
    let rest = states_of graph edges in
    elim (state graph edge) [ some st ↦ st ∷ rest | none ↦ rest ]

unfoldable pub cycle_steps : GraphSnapshot → List OwnedPoolEdge → List SwapStep
cycle_steps graph [] = []
cycle_steps graph (edge ∷ edges) =
    let rest = cycle_steps graph edges in
    elim (state graph edge) [
      | some st ↦ swap_step_from_pool st edge.token_in edge.token_out ∷ rest
      | none ↦ rest
    ]

unfoldable pub build_dynamic_multihop_search_path :
    GraphSnapshot → AnchorSearchConfig → List OwnedPoolEdge → SearchPath
unfolding states_of
build_dynamic_multihop_search_path graph anchor edges = record {
  path = record {
    name =
        "cycle"
        +++ decimal 20 (length edges)
        +++ "-"
        +++ short_token anchor.token
        +++ "-"
        +++ join "-" (map pool_label (states_of graph edges));
    steps = cycle_steps graph edges;
    diagnostics = none;
  };
  amount_sizes = anchor.amount_sizes;
  min_profit = anchor.min_profit;
  strategy = "token-" +++ decimal 20 (length edges) +++ "-pool-cycle";
}
