-- ===== src/Searcher/Scan.antt =====
-- crates/searcher/src/strategy.rs: the scan for cycles through changed pools,
-- `dynamic_multihop_paths_for_changed_pools`. The set of fingerprints is the list of its elements. A loop
-- that may end the scan's function early returns with its state whether it has.
pub mod Rounds
pub mod Found
use Prim.Native.String
use Prim.Native.String.{String}
use Prim.Native.Nat.{Ordering}
use text.Mathlib.Text.{◌==◌ as ◌===◌}
use dexmoney.Prelude.{
  ℕ, zero, suc, ◌+◌, ◌-◌, Bool, true, false, ◌&&◌, ◌||◌, not, Option, none, some, Result, List, [],
  ◌∷◌, ◌++◌, map, ltb, leb, ◌==◌, if◌then◌else◌, any, length, take,
}
use dexmoney.Prelude.Sorting.{sort}
use dexmoney.Common.Pool.{Address, PoolState}
use dexmoney.Searcher.Search.{SearchPath}
use dexmoney.Searcher.Graph.{GraphSnapshot, OwnedPoolEdge, pool_edges, bounded_priority_pools}
use dexmoney.Searcher.Cycle.{SegmentPathCache, Segments, empty_cache, get}
use dexmoney.Searcher.CyclePath.{AnchorSearchConfig, is_valid_dynamic_cycle, cycle_fingerprint}
use dexmoney.Searcher.Score.{
  ScanStats, ScoredDynamicPath, no_scan_stats, score_dynamic_multihop_path,
}

abbrev pub max_dynamic_multihop_paths_per_scan : ℕ
max_dynamic_multihop_paths_per_scan = 5_000

abbrev pub max_dynamic_multihop_candidates_per_scan : ℕ
max_dynamic_multihop_candidates_per_scan = 20_000

-- What the loops of a scan change.
pub record Scan : Type 0 where
  pub paths : List ScoredDynamicPath
  pub seen : List String
  pub cache : SegmentPathCache
  pub stats : ScanStats

-- The rounds of a loop, up to one that ends it.
unfoldable pub each {ℓ} : {A : Type ℓ} → (A → Scan → Scan × Bool) → List A → Scan → Scan × Bool
each f [] s = (s, false)
each f (x ∷ xs) s = let rest = each f xs (f x s).0 in if (f x s).1 then f x s else rest

unfoldable pub is_capped : List ScoredDynamicPath → Bool
is_capped paths = leb max_dynamic_multihop_candidates_per_scan (length paths)

abbrev is_seen : List String → String → Bool
is_seen seen fingerprint = any (λ text. text === fingerprint) seen

abbrev pub none_left {ℓ} : {A : Type ℓ} → List A → Bool
none_left [] = true
none_left (x ∷ xs) = false

-- `0..n`, from a first number
unfoldable pub range_from : ℕ → ℕ → List ℕ
range_from first zero = []
range_from first (suc n) = first ∷ range_from (first + 1) n

-- A scored cycle is pushed, and ends the loops if it is the last that fits.
unfoldable pub push_scored : Option ScoredDynamicPath × ScanStats → Scan → Scan × Bool
push_scored (none, stats) s = (record s { stats = stats }, false)
push_scored (some path, stats) s =
    let paths = s.paths ++ path ∷ [] in (record s { paths = paths; stats = stats }, is_capped paths)

module _ (quote_balancer_weighted_exact_in : PoolState → Address → Address → ℕ → Result String ℕ)
    (graph : GraphSnapshot) where
  module _ (priority_pools : List Address) (anchor : AnchorSearchConfig)
      (changed_edge : OwnedPoolEdge) where
    -- A round of the inner loop, with a whole cycle.
    unfoldable pub try_cycle : List OwnedPoolEdge → Scan → Scan × Bool
    unfolding push_scored
    try_cycle cycle s =
        let stats = s.stats in
        let fingerprint = cycle_fingerprint anchor.token cycle in
        if not (is_valid_dynamic_cycle anchor.token cycle)
        then (record s { stats = record stats { invalid_cycle = stats.invalid_cycle + 1 } }, false)
        else if is_seen s.seen fingerprint
        then (
          record s { stats = record stats { duplicate_cycle = stats.duplicate_cycle + 1 } },
          false,
        )
        else push_scored
            (score_dynamic_multihop_path quote_balancer_weighted_exact_in graph anchor cycle stats)
            (record s { seen = s.seen ++ fingerprint ∷ [] })

    -- All cycles of a prefix, the changed edge and a suffix.
    unfoldable pub try_cycles : Segments → Segments → Scan → Scan × Bool
    unfolding try_cycle
    try_cycles prefixes suffixes s =
        each (λ prefix. each (λ suffix. try_cycle (prefix ++ changed_edge ∷ suffix)) suffixes)
          prefixes s

    unfoldable pub try_suffixes : Segments → ℕ → Scan → Scan × Bool
    unfolding try_cycles
    try_suffixes prefixes suffix_len s =
        let found =
          get graph priority_pools changed_edge.token_out anchor.token suffix_len s.cache in
        let known = record s { cache = found.cache } in
        if none_left found.out
        then (
          record known { stats = record s.stats { suffix_empty = s.stats.suffix_empty + 1 } },
          false,
        )
        else try_cycles prefixes found.out known

    unfoldable pub try_position : ℕ → ℕ → Scan → Scan × Bool
    unfolding try_suffixes
    try_position cycle_len changed_position s =
        let found =
          get graph priority_pools anchor.token changed_edge.token_in changed_position s.cache in
        let known = record s { cache = found.cache } in
        if none_left found.out
        then (
          record known { stats = record s.stats { prefix_empty = s.stats.prefix_empty + 1 } },
          false,
        )
        else try_suffixes found.out (cycle_len - changed_position - 1) known

    unfoldable pub add_dynamic_cycles_for_changed_edge : ℕ → Scan → Scan
    unfolding try_position
    add_dynamic_cycles_for_changed_edge cycle_len s =
        (each (try_position cycle_len) (range_from 0 cycle_len)
          (record s { stats = record s.stats { changed_edges = s.stats.changed_edges + 1 } })).0

    -- A round over the edges of a changed pool: cycles of three edges, then of four.
    unfoldable pub scan_edge : Scan → Scan × Bool
    unfolding add_dynamic_cycles_for_changed_edge
    scan_edge s =
        let s' = add_dynamic_cycles_for_changed_edge 4 (add_dynamic_cycles_for_changed_edge 3 s) in
        (s', is_capped s'.paths)

  unfoldable pub scan_pool : List Address → AnchorSearchConfig → Address → Scan → Scan × Bool
  unfolding scan_edge
  scan_pool priority_pools anchor changed_pool s = elim (pool_edges graph changed_pool) [
    | none ↦ (s, false)
    | some changed_edges ↦ each (scan_edge priority_pools anchor) changed_edges s
  ]

  unfoldable pub scan_anchors :
      List Address → List Address → List AnchorSearchConfig → Scan → Scan × Bool
  unfolding scan_pool
  scan_anchors priority_pools changed_pools anchors s =
      each (λ anchor. each (scan_pool priority_pools anchor) changed_pools) anchors s

  -- The better score stands first, then the greater profit, then the smaller name.
  unfoldable pub ranks_before : ScoredDynamicPath → ScoredDynamicPath → Bool
  ranks_before a b =
      ltb b.score_bps a.score_bps
      || (a.score_bps == b.score_bps
          && (ltb b.estimated_profit a.estimated_profit
              || (a.estimated_profit == b.estimated_profit
                  && elim (String.compare a.path.path.name b.path.path.name) [
                    | Ordering.gt ↦ false
                    | _ ↦ true
                  ])))

  unfoldable pub select_dynamic_paths : List ScoredDynamicPath → List SearchPath
  unfolding ranks_before
  select_dynamic_paths paths =
      map (λ path. path.path) (take max_dynamic_multihop_paths_per_scan (sort ranks_before paths))

  -- The end of a scan, with the cap hit or not.
  unfoldable pub finish_scan : Scan × Bool → List SearchPath × ScanStats
  unfolding select_dynamic_paths
  finish_scan (s, capped) =
      let selected = select_dynamic_paths s.paths in
      (
        selected,
        record s.stats {
          candidate_cap_hit =
              if capped then s.stats.candidate_cap_hit + 1 else s.stats.candidate_cap_hit;
          paths = length selected;
        },
      )

  -- `dynamic_multihop_paths_for_changed_pools` of an engine with these anchors
  unfoldable pub dynamic_multihop_paths_for_changed_pools :
      Bool → List AnchorSearchConfig → List Address → List SearchPath × ScanStats
  unfolding finish_scan scan_anchors
  dynamic_multihop_paths_for_changed_pools multihop_enabled anchor_configs changed_pools =
      let stats = record no_scan_stats { anchors = length anchor_configs } in
      let priority = bounded_priority_pools graph changed_pools in
      if not multihop_enabled || none_left changed_pools
      then ([], no_scan_stats)
      else if none_left anchor_configs
      then ([], stats)
      else finish_scan (
          scan_anchors priority.pools changed_pools anchor_configs (record {
            paths = [];
            seen = [];
            cache = empty_cache;
            stats = record stats {
              priority_edges = priority.selected_edges;
              priority_edges_dropped = priority.dropped_edges;
            };
          }))
