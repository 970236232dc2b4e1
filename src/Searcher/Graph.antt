-- ===== src/Searcher/Graph.antt =====
-- crates/searcher/src/strategy.rs: the graph of pools, `GraphSnapshot`, with the pools that belong in it.
-- A map from tokens or pools to edges is an association list with one entry for each key, and a set of
-- pools the list of its elements; their order stands for the order in which the source iterates.
pub mod Edges
use dexmoney.Prelude.{
  ℕ, zero, suc, ◌+◌, ◌%◌, Bool, true, false, ◌&&◌, ◌||◌, not, Option, none, some, List, [], ◌∷◌,
  ◌++◌, ltb, leb, ◌==◌, if◌then◌else◌, unwrap_or, any, retain, length, take, drop,
}
use dexmoney.Prelude.Sorting.{sort}
use dexmoney.Prelude.Int.{ℤ, pos, ltb_ℤ}
use dexmoney.Word.{u256_mod}
use dexmoney.Common.Pool.{Address, PoolState, PoolVariant}

abbrev pub max_dynamic_edge_fanout_per_token : ℕ
max_dynamic_edge_fanout_per_token = 16

abbrev pub max_dynamic_priority_edges_per_token : ℕ
max_dynamic_priority_edges_per_token = 32

abbrev is_some {ℓ} : {A : Type ℓ} → Option A → Bool
is_some none = false
is_some (some _) = true

unfoldable pub is_supported_v3 : Option ℕ → Option ℕ → Option ℤ → Bool
is_supported_v3 (some sqrt_price_x96) (some liquidity) (some _) =
    not (sqrt_price_x96 == 0) && not (liquidity == 0)
is_supported_v3 _ _ _ = false

unfoldable pub is_supported_spaced_v3 : Option ℕ → Option ℕ → Option ℤ → Option ℤ → Bool
is_supported_spaced_v3 (some sqrt_price_x96) (some liquidity) (some _) (some tick_spacing) =
    ltb_ℤ (pos 0) tick_spacing && not (sqrt_price_x96 == 0) && not (liquidity == 0)
is_supported_spaced_v3 _ _ _ _ = false

unfoldable pub is_supported_variant : PoolVariant → PoolState → Bool
unfolding is_supported_v3 is_supported_spaced_v3
is_supported_variant PoolVariant.aerodrome_volatile state =
    if unwrap_or state.stable false
      && (not (is_some state.token0_decimals) || not (is_some state.token1_decimals))
    then false
    else is_some state.reserve0 && is_some state.reserve1
is_supported_variant PoolVariant.uniswap_v3 state =
    is_supported_v3 state.sqrt_price_x96 state.liquidity state.tick
is_supported_variant PoolVariant.pancake_v3 state =
    is_supported_v3 state.sqrt_price_x96 state.liquidity state.tick
is_supported_variant PoolVariant.aerodrome_slipstream state =
    is_supported_spaced_v3 state.sqrt_price_x96 state.liquidity state.tick state.tick_spacing
is_supported_variant PoolVariant.uniswap_v4 state =
    is_supported_spaced_v3 state.sqrt_price_x96 state.liquidity state.tick state.tick_spacing
is_supported_variant PoolVariant.balancer_v3 state = true

unfoldable pub is_supported_pool : PoolState → Bool
unfolding is_supported_variant
is_supported_pool state =
    if state.token0 == 0 || state.token1 == 0 || state.token0 == state.token1
    then false
    else is_supported_variant state.variant state

unfoldable pub depth_of_variant : PoolVariant → PoolState → ℕ
depth_of_variant PoolVariant.aerodrome_volatile state =
    (unwrap_or state.reserve0 0 + unwrap_or state.reserve1 0) % u256_mod
depth_of_variant PoolVariant.balancer_v3 state = 1
depth_of_variant _ state = unwrap_or state.liquidity 0

unfoldable pub pool_depth_score : PoolState → ℕ
unfolding depth_of_variant
pool_depth_score state = depth_of_variant state.variant state

pub record OwnedPoolEdge : Type 0 where
  pub state_index : ℕ
  pub pool : Address
  pub token_in : Address
  pub token_out : Address

abbrev pub EdgeMap : Type 0
EdgeMap = List (Address × List OwnedPoolEdge)

-- `map.get(&key)`
unfoldable pub edges_at : EdgeMap → Address → Option (List OwnedPoolEdge)
edges_at [] key = none
edges_at ((k, edges) ∷ rest) key = if k == key then some edges else edges_at rest key

-- `map.entry(key).or_default().push(edge)`
unfoldable pub push_edge : Address → OwnedPoolEdge → EdgeMap → EdgeMap
push_edge key edge [] = (key, edge ∷ []) ∷ []
push_edge key edge ((k, edges) ∷ rest) =
    if k == key then (k, edges ++ edge ∷ []) ∷ rest else (k, edges) ∷ push_edge key edge rest

pub record GraphSnapshot : Type 0 where
  pub pool_states : List PoolState
  pub edges_by_token : EdgeMap
  pub pool_to_edges : EdgeMap

abbrev pub empty_graph : GraphSnapshot
empty_graph = record { pool_states = []; edges_by_token = []; pool_to_edges = [] }

unfoldable pub add_edge : OwnedPoolEdge → GraphSnapshot → GraphSnapshot
add_edge edge graph = record graph {
  edges_by_token = push_edge edge.token_in edge graph.edges_by_token;
  pool_to_edges = push_edge edge.pool edge graph.pool_to_edges;
}

-- The two edges of a pool, one for each direction.
unfoldable pub forward_edge : ℕ → PoolState → OwnedPoolEdge
forward_edge state_index state = record {
  state_index = state_index;
  pool = state.pool_id.address;
  token_in = state.token0;
  token_out = state.token1;
}

unfoldable pub backward_edge : ℕ → PoolState → OwnedPoolEdge
backward_edge state_index state = record {
  state_index = state_index;
  pool = state.pool_id.address;
  token_in = state.token1;
  token_out = state.token0;
}

-- A round of the loop over the supported pools.
unfoldable pub add_state : PoolState → GraphSnapshot → GraphSnapshot
add_state state graph =
    let index = length graph.pool_states in
    let with_state = record graph { pool_states = graph.pool_states ++ state ∷ [] } in
    add_edge (backward_edge index state) (add_edge (forward_edge index state) with_state)

unfoldable pub add_states : List PoolState → GraphSnapshot → GraphSnapshot
add_states [] graph = graph
add_states (state ∷ states) graph = add_states states (add_state state graph)

abbrev pub state_at : List PoolState → ℕ → Option PoolState
state_at [] index = none
state_at (state ∷ states) zero = some state
state_at (state ∷ states) (suc index) = state_at states index

-- `sort_by_key(Reverse(pool_depth_score))`: the deeper pool stands first.
unfoldable pub depth_at : List PoolState → OwnedPoolEdge → ℕ
depth_at states edge = elim (state_at states edge.state_index) [
  | some state ↦ pool_depth_score state
  | none ↦ 0
]

unfoldable pub sort_entries : List PoolState → EdgeMap → EdgeMap
sort_entries states [] = []
sort_entries states ((k, edges) ∷ rest) =
    (k, sort (λ a b. leb (depth_at states b) (depth_at states a)) edges) ∷ sort_entries states rest

-- `GraphSnapshot::new`
unfoldable pub new : List PoolState → GraphSnapshot
new pool_states =
    let graph = add_states (retain is_supported_pool pool_states) empty_graph in
    record graph { edges_by_token = sort_entries graph.pool_states graph.edges_by_token }

-- `state`, which panics out of range
unfoldable pub state : GraphSnapshot → OwnedPoolEdge → Option PoolState
state graph edge = state_at graph.pool_states edge.state_index

abbrev pub contains : List Address → Address → Bool
contains pools pool = any (λ p. p == pool) pools

-- `sort_by_key(|edge| (edge.token_out, edge.pool()))`
unfoldable pub stands_before : OwnedPoolEdge → OwnedPoolEdge → Bool
stands_before a b = ltb a.token_out b.token_out || (a.token_out == b.token_out && leb a.pool b.pool)

unfoldable pub chosen_edges : List OwnedPoolEdge → List Address → List OwnedPoolEdge
chosen_edges edges priority_pools =
    take max_dynamic_edge_fanout_per_token edges
    ++ retain (λ edge. contains priority_pools edge.pool)
        (drop max_dynamic_edge_fanout_per_token edges)

unfoldable pub candidate_edges_from_token :
    GraphSnapshot → Address → List Address → List OwnedPoolEdge
candidate_edges_from_token graph token priority_pools = elim (edges_at graph.edges_by_token token) [
  | none ↦ []
  | some edges ↦ sort stands_before (chosen_edges edges priority_pools)
]

unfoldable pub pool_edges : GraphSnapshot → Address → Option (List OwnedPoolEdge)
pool_edges graph pool = edges_at graph.pool_to_edges pool

pub record BoundedPriorityPools : Type 0 where
  pub pools : List Address
  pub selected_edges : ℕ
  pub dropped_edges : ℕ

-- `set.insert(pool)`
abbrev pub insert_pool : List Address → Address → List Address
insert_pool pools pool = if contains pools pool then pools else pools ++ pool ∷ []

-- The loop over the priority edges of a token, from the number it has selected.
unfoldable pub bound_edges : List OwnedPoolEdge → ℕ → BoundedPriorityPools → BoundedPriorityPools
bound_edges [] token_selected bounded = bounded
bound_edges (edge ∷ edges) token_selected bounded =
    let fits = ltb token_selected max_dynamic_priority_edges_per_token in
    bound_edges edges (if fits then token_selected + 1 else token_selected) (
      if fits
      then record bounded {
        pools = insert_pool bounded.pools edge.pool;
        selected_edges = bounded.selected_edges + 1;
      }
      else record bounded { dropped_edges = bounded.dropped_edges + 1 })

unfoldable pub bound_entries : EdgeMap → List Address → BoundedPriorityPools → BoundedPriorityPools
bound_entries [] priority_pools bounded = bounded
bound_entries ((token, edges) ∷ rest) priority_pools bounded = bound_entries rest priority_pools (
    bound_edges
      (retain (λ edge. contains priority_pools edge.pool)
        (drop max_dynamic_edge_fanout_per_token edges))
      0 bounded)

unfoldable pub bounded_priority_pools : GraphSnapshot → List Address → BoundedPriorityPools
bounded_priority_pools graph priority_pools =
    bound_entries graph.edges_by_token priority_pools
      (record { pools = []; selected_edges = 0; dropped_edges = 0 })
