-- ===== src/Searcher/Cycle.antt =====
-- crates/searcher/src/strategy.rs: the search for cycles in the graph of pools, `SegmentPathCache` and
-- `edge_paths_between`. The cache is a pair of functions, passed on from call to call.
pub mod Reach
pub mod Segments
pub mod Walks
use dexmoney.Prelude.{
  ℕ, zero, suc, Bool, true, false, ◌&&◌, not, Option, none, some, List, [], ◌∷◌, ◌++◌, leb, ◌==◌,
  if◌then◌else◌, any, length,
}
use dexmoney.Common.Pool.{Address}
use dexmoney.Searcher.Graph.{GraphSnapshot, OwnedPoolEdge, candidate_edges_from_token}

abbrev pub max_dynamic_segment_paths : ℕ
max_dynamic_segment_paths = 256

abbrev pub Segments : Type 0
Segments = List (List OwnedPoolEdge)

-- The keys are a start, an end and a number of edges.
pub record SegmentPathCache : Type 0 where
  pub paths : Address → Address → ℕ → Option Segments
  pub reachable : Address → Address → ℕ → Option Bool

-- `SegmentPathCache::default()`
abbrev pub empty_cache : SegmentPathCache
empty_cache = record {
  paths = λ start end edge_count. none;
  reachable = λ start end edge_count. none;
}

abbrev is_key : Address → Address → ℕ → Address → Address → ℕ → Bool
is_key start end edge_count s e n = s == start && e == end && n == edge_count

unfoldable pub insert_reachable : Address → Address → ℕ → Bool → SegmentPathCache → SegmentPathCache
insert_reachable start end edge_count found cache = record cache {
  reachable =
      λ s e n. if is_key start end edge_count s e n then some found else cache.reachable s e n;
}

unfoldable pub insert_paths : Address → Address → ℕ → Segments → SegmentPathCache → SegmentPathCache
insert_paths start end edge_count found cache = record cache {
  paths = λ s e n. if is_key start end edge_count s e n then some found else cache.paths s e n;
}

-- What a computation found is kept under its key.
unfoldable pub keep_reachable :
    Address → Address → ℕ → Bool × SegmentPathCache → Bool × SegmentPathCache
keep_reachable start end edge_count (found, cache) =
    (found, insert_reachable start end edge_count found cache)

-- A key that is known is not computed again.
unfoldable pub recall_reachable :
    Address
    → Address
    → ℕ
    → (SegmentPathCache → Bool × SegmentPathCache)
    → SegmentPathCache
    → Bool × SegmentPathCache
recall_reachable start end edge_count compute cache = elim (cache.reachable start end edge_count) [
  | some found ↦ (found, cache)
  | none ↦ keep_reachable start end edge_count (compute cache)
]

-- `iter().any(..)` with a test that changes the cache
unfoldable pub any_cached :
    (OwnedPoolEdge → SegmentPathCache → Bool × SegmentPathCache)
    → List OwnedPoolEdge
    → SegmentPathCache
    → Bool × SegmentPathCache
any_cached test [] cache = (false, cache)
any_cached test (edge ∷ edges) cache =
    let found = test edge cache in
    let rest = any_cached test edges found.1 in if found.0 then found else rest

-- The paths so far and the cache.
pub record Finding : Type 0 where
  pub out : Segments
  pub cache : SegmentPathCache

unfoldable pub is_full : Finding → Bool
is_full s = leb max_dynamic_segment_paths (length s.out)

unfoldable pub push_path : List OwnedPoolEdge → Finding → Finding
push_path path s = record s { out = s.out ++ path ∷ [] }

abbrev pub has_pool : List OwnedPoolEdge → Address → Bool
has_pool edges pool = any (λ existing. existing.pool == pool) edges

module _ (graph : GraphSnapshot) (priority_pools : List Address) where
  unfoldable pub can_reach : ℕ → Address → Address → SegmentPathCache → Bool × SegmentPathCache
  unfolding any_cached
  can_reach zero start end cache = recall_reachable start end 0 (λ c. (start == end, c)) cache
  can_reach (suc n) start end cache =
      recall_reachable start end (suc n)
        (any_cached (λ edge c. can_reach n edge.token_out end c)
          (candidate_edges_from_token graph start priority_pools))
        cache

  -- A round of the loop over the edges from a token; `go` searches on behind the edge.
  unfoldable pub visit_edge :
      (Address → List OwnedPoolEdge → Finding → Finding)
      → ℕ
      → Address
      → List OwnedPoolEdge
      → OwnedPoolEdge
      → Finding
      → Finding
  visit_edge go n end current edge s =
      let found = can_reach n edge.token_out end s.cache in
      let known = record s { cache = found.1 } in
      if not found.0
      then known
      else if has_pool current edge.pool
      then known
      else go edge.token_out (current ++ edge ∷ []) known

  unfoldable pub visit_edges :
      (Address → List OwnedPoolEdge → Finding → Finding)
      → ℕ
      → Address
      → List OwnedPoolEdge
      → List OwnedPoolEdge
      → Finding
      → Finding
  visit_edges go n end current [] s = s
  visit_edges go n end current (edge ∷ edges) s =
      let rest = visit_edges go n end current edges (visit_edge go n end current edge s) in
      if is_full s then s else rest

  unfoldable pub edge_paths_between_inner :
      ℕ → Address → Address → List OwnedPoolEdge → Finding → Finding
  unfolding visit_edges
  edge_paths_between_inner zero current_token end current s =
      if is_full s then s else if current_token == end then push_path current s else s
  edge_paths_between_inner (suc n) current_token end current s =
      let rest =
        visit_edges (λ token extended found. edge_paths_between_inner n token end extended found) n
          end current (candidate_edges_from_token graph current_token priority_pools) s in
      if is_full s then s else rest

  -- The search behind a positive answer of `can_reach`.
  unfoldable pub explore : ℕ → Address → Address → Bool × SegmentPathCache → Finding
  explore edge_count start end (false, cache) = record { out = []; cache = cache }
  explore edge_count start end (true, cache) =
      edge_paths_between_inner edge_count start end [] (record { out = []; cache = cache })

  unfoldable pub edge_paths_between : ℕ → Address → Address → SegmentPathCache → Finding
  edge_paths_between zero start end cache = record {
    out = if start == end then [] ∷ [] else [];
    cache = cache;
  }
  edge_paths_between (suc n) start end cache =
      explore (suc n) start end (can_reach (suc n) start end cache)

  unfoldable pub keep_paths : Address → Address → ℕ → Finding → Finding
  keep_paths start end edge_count s = record s {
    cache = insert_paths start end edge_count s.out s.cache;
  }

  -- `SegmentPathCache::get`
  unfoldable pub get : Address → Address → ℕ → SegmentPathCache → Finding
  get start end edge_count cache = elim (cache.paths start end edge_count) [
    | some paths ↦ record { out = paths; cache = cache }
    | none ↦ keep_paths start end edge_count (edge_paths_between edge_count start end cache)
  ]
