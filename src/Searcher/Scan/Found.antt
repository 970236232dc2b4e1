-- ===== src/Searcher/Scan/Found.antt =====
-- What a scan for cycles returns.
use Prim.Native.String.{String}
use mathlib.Core.Path.{subst}
use mathlib.Core.List.{Memᴰ}
use mathlib.Core.List.Memᴰ
use dexmoney.Prelude.{
  ℕ, suc, ◌≤◌, Bool, ◌||◌, not, Result, List, [], ◌∷◌, ◌≡◌, refl, ap, inl, inr, map, take-mem,
  length, length-take, arith, Bool-cases,
}
use dexmoney.Prelude.Sorting.{sort, sort-mem}
use dexmoney.Common.Pool.{Address, PoolState}
use dexmoney.Searcher.Search.{SearchPath}
use dexmoney.Searcher.Graph.{GraphSnapshot, bounded_priority_pools}
use dexmoney.Searcher.Cycle.Reach.{empty_cache-Coherent}
use dexmoney.Searcher.CyclePath.{AnchorSearchConfig}
use dexmoney.Searcher.Score.{ScoredDynamicPath}
use dexmoney.Searcher.Scan.Rounds.{Found, Holds, scan_anchors-Holds}
use dexmoney.Searcher.Scan.{
  Scan, none_left, select_dynamic_paths, finish_scan, dynamic_multihop_paths_for_changed_pools,
  max_dynamic_multihop_paths_per_scan,
}

length-map {ℓ κ} :
    {A : Type ℓ} {B : Type κ} (f : A → B) (xs : List A) → length (map f xs) ≡ length xs
length-map f [] = refl
length-map f (x ∷ xs) = ap suc (length-map f xs)

module _ (quote_balancer_weighted_exact_in : PoolState → Address → Address → ℕ → Result String ℕ)
    (graph : GraphSnapshot) where
  select-length :
      (paths : List ScoredDynamicPath)
      → length (select_dynamic_paths quote_balancer_weighted_exact_in graph paths)
        ≤ max_dynamic_multihop_paths_per_scan
  unfolding select_dynamic_paths
  select-length paths =
      rw length-map (length-take max_dynamic_multihop_paths_per_scan (sort _ paths))

  module _ (priority_pools changed_pools : List Address) (anchors : List AnchorSearchConfig) where
    select-Found :
        (s : Scan) (path : SearchPath)
        → Holds quote_balancer_weighted_exact_in graph priority_pools changed_pools anchors s
        → Memᴰ path (select_dynamic_paths quote_balancer_weighted_exact_in graph s.paths)
        → Found quote_balancer_weighted_exact_in graph priority_pools changed_pools anchors path
    unfolding select_dynamic_paths
    select-Found s path h m =
        let (p, mp, e) = Memᴰ.of_map (λ q. q.path) _ m in
        subst (Found quote_balancer_weighted_exact_in graph priority_pools changed_pools anchors) e
          (h.found p
            (sort-mem _ s.paths (take-mem max_dynamic_multihop_paths_per_scan (sort _ s.paths) mp)))

  -- Every path that a scan returns is that of a cycle of three or four edges from one of the anchors,
  -- through an edge of a changed pool, with a walk of the graph before that edge and one behind it; there
  -- are at most 5,000.
  pub dynamic_multihop_paths-Found :
      (multihop_enabled : Bool) (anchors : List AnchorSearchConfig) (changed_pools : List Address)
      → ((path : SearchPath)
          → Memᴰ path
              (dynamic_multihop_paths_for_changed_pools quote_balancer_weighted_exact_in graph
                multihop_enabled anchors changed_pools).0
          → Found quote_balancer_weighted_exact_in graph
              (bounded_priority_pools graph changed_pools).pools
              changed_pools
              anchors
              path)
        × (length
              (dynamic_multihop_paths_for_changed_pools quote_balancer_weighted_exact_in graph
                multihop_enabled anchors changed_pools).0
            ≤ max_dynamic_multihop_paths_per_scan)
  unfolding dynamic_multihop_paths_for_changed_pools finish_scan
  dynamic_multihop_paths-Found multihop_enabled anchors changed_pools =
      elim (Bool-cases (not multihop_enabled || none_left changed_pools)) [
        | inl e ↦ rw e (λ path m. absurd (Memᴰ.not-nil m), omega arith)
        | inr e ↦ elim (Bool-cases (none_left anchors)) [
          | inl f ↦ rw (e, f) (λ path m. absurd (Memᴰ.not-nil m), omega arith)
          | inr f ↦
              rw (e, f)
                (
                  λ path m.
                      select-Found (bounded_priority_pools graph changed_pools).pools changed_pools
                        anchors _ path
                        (scan_anchors-Holds quote_balancer_weighted_exact_in graph
                          (bounded_priority_pools graph changed_pools).pools changed_pools anchors _
                          (record {
                            right = empty_cache-Coherent graph _;
                            found = λ p m. absurd (Memᴰ.not-nil m);
                          }))
                        m,
                  select-length _,
                )
        ]
      ]
