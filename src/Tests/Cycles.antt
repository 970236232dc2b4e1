-- ===== src/Tests/Cycles.antt =====
-- A triangle of three pools of crates/searcher, searched for cycles.
use Prim.Native.String.{String}
use mathlib.Core.List.{Memᴰ}
use dexmoney.Prelude.{
  ℕ, ◌≤◌, ◌<◌, ◌≡◌, ◌↔◌, refl, Result, err, true, List, [], ◌∷◌, some, take, length,
}
use dexmoney.Prelude.Sorting.{sort}
use dexmoney.Common.Pool.{Address, PoolState}
use dexmoney.Searcher.Search.{SearchPath}
use dexmoney.Searcher.Graph.{
  OwnedPoolEdge, GraphSnapshot, new, state, is_supported_pool, edges_at, sort_entries, add_states,
  add_state, add_edge, push_edge, forward_edge, backward_edge, chosen_edges, depth_at,
  pool_depth_score, stands_before, candidate_edges_from_token, bounded_priority_pools,
}
use dexmoney.Searcher.Graph.Edges.{Crosses, candidate_edges_from_token-OfPool}
use dexmoney.Searcher.Cycle.{empty_cache, get, max_dynamic_segment_paths}
use dexmoney.Searcher.Cycle.Reach.{Coherent, walks, empty_cache-Coherent}
use dexmoney.Searcher.Cycle.Segments.{get-eq-walks}
use dexmoney.Searcher.Cycle.Walks.{GoesOn, get-Finds}
use dexmoney.Searcher.CyclePath.{AnchorSearchConfig, is_valid_dynamic_cycle}
use dexmoney.Searcher.CyclePath.Valid.{IsClosed, is_valid_dynamic_cycle-iff-IsClosed}
use dexmoney.Searcher.Scan.{
  dynamic_multihop_paths_for_changed_pools, max_dynamic_multihop_paths_per_scan,
}
use dexmoney.Searcher.Scan.Rounds.{Found}
use dexmoney.Searcher.Scan.Found.{dynamic_multihop_paths-Found}
use dexmoney.Tests.Searches.{classic_pool}

abbrev pool_between : Address → Address → Address → ℕ → PoolState
pool_between address token0 token1 reserve1 = record (classic_pool address 1_000_000 reserve1) {
  token0 = token0;
  token1 = token1;
}

-- The pools 11, 12 and 13 between the tokens 1, 2 and 3; the last pays twice what it takes.
abbrev triangle_pools : List PoolState
triangle_pools =
    pool_between 11 1 2 1_000_000
    ∷ pool_between 12 2 3 1_000_000
    ∷ pool_between 13 3 1 2_000_000
    ∷ []

abbrev triangle : GraphSnapshot
triangle = new triangle_pools

abbrev edge : ℕ → Address → Address → Address → OwnedPoolEdge
edge index pool token_in token_out = record {
  state_index = index;
  pool = pool;
  token_in = token_in;
  token_out = token_out;
}

abbrev no_weighted : PoolState → Address → Address → ℕ → Result String ℕ
no_weighted state token_in token_out amount = err "no weighted pool"

abbrev anchor : AnchorSearchConfig
anchor = record { token = 1; amount_sizes = 1_000 ∷ []; min_profit = 10 }

abbrev scanned : List SearchPath
scanned =
    (dynamic_multihop_paths_for_changed_pools no_weighted triangle true (anchor ∷ []) (12 ∷ [])).0

offered_edge : Memᴰ (edge 0 11 1 2) (candidate_edges_from_token (new triangle_pools) 1 [])
unfolding candidate_edges_from_token new edges_at sort_entries add_states is_supported_pool
    add_state add_edge push_edge forward_edge backward_edge sort chosen_edges depth_at
    pool_depth_score stands_before
offered_edge = Memᴰ.head refl

abbrev cycle : List OwnedPoolEdge
cycle = edge 0 11 1 2 ∷ edge 1 12 2 3 ∷ edge 2 13 3 1 ∷ []

get-Finds_example :
    ((p : List OwnedPoolEdge)
      → Memᴰ p (get triangle [] 1 3 2 empty_cache).out
      → GoesOn triangle [] 2 1 3 [] p)
    × (length (get triangle [] 1 3 2 empty_cache).out ≤ max_dynamic_segment_paths)
    × (length (get triangle [] 1 3 2 empty_cache).out < max_dynamic_segment_paths
        → (p : List OwnedPoolEdge) → GoesOn triangle [] 2 1 3 [] p
        → Memᴰ p (get triangle [] 1 3 2 empty_cache).out)
get-Finds_example = get-Finds triangle [] 1 3 2 empty_cache (empty_cache-Coherent triangle [])

get-eq-walks_example :
    ((get triangle [] 1 3 2 empty_cache).out
      ≡ take max_dynamic_segment_paths (walks triangle [] 2 1 3 []))
    × Coherent triangle [] (get triangle [] 1 3 2 empty_cache).cache
get-eq-walks_example = get-eq-walks triangle [] 1 3 2 empty_cache (empty_cache-Coherent triangle [])

is_valid_dynamic_cycle-iff-IsClosed_example :
    (is_valid_dynamic_cycle 1 cycle ≡ true) ↔ IsClosed 1 cycle
is_valid_dynamic_cycle-iff-IsClosed_example = is_valid_dynamic_cycle-iff-IsClosed 1 cycle

candidate_edges_from_token-OfPool_example :
    ◌≡◌ {A = ℕ} 1 1
    × ((st : PoolState) × (state triangle (edge 0 11 1 2) ≡ some st)
        × (is_supported_pool st ≡ true)
        × Crosses st (edge 0 11 1 2))
candidate_edges_from_token-OfPool_example =
    candidate_edges_from_token-OfPool triangle_pools 1 [] (edge 0 11 1 2) offered_edge

dynamic_multihop_paths-Found_example :
    ((path : SearchPath)
      → Memᴰ path scanned
      → Found no_weighted triangle
          (bounded_priority_pools triangle (12 ∷ [])).pools
          (12 ∷ [])
          (anchor ∷ [])
          path)
    × (length scanned ≤ max_dynamic_multihop_paths_per_scan)
dynamic_multihop_paths-Found_example =
    dynamic_multihop_paths-Found no_weighted triangle true (anchor ∷ []) (12 ∷ [])
