-- ===== src/Searcher/Scan/Rounds.antt =====
-- An invariant of the loops of a scan for cycles: the cache is right, and every scored path is that of a cycle
-- through a changed pool.
use Prim.Native.String.{String}
use mathlib.Core.List.{Memᴰ}
use mathlib.Core.List.Memᴰ
use dexmoney.Prelude.{
  ℕ, zero, suc, ◌+◌, ◌-◌, ◌≤◌, ◌<◌, Bool, Option, none, some, Result, List, [], ◌∷◌, ◌++◌, ◌≡◌, ◌⊎◌,
  refl, sym, ap, inl, inr, length, length-append, arith, Bool-cases, Option-cases,
}
use dexmoney.Common.Pool.{Address, PoolState}
use dexmoney.Searcher.Search.{SearchPath}
use dexmoney.Searcher.Graph.{GraphSnapshot, OwnedPoolEdge, pool_edges}
use dexmoney.Searcher.Cycle.{Segments, get}
use dexmoney.Searcher.Cycle.Reach.{Coherent}
use dexmoney.Searcher.Cycle.Segments.{get-eq-walks}
use dexmoney.Searcher.Cycle.Walks.{IsWalk, get-Finds}
use dexmoney.Searcher.CyclePath.{
  AnchorSearchConfig, is_valid_dynamic_cycle, cycle_fingerprint, build_dynamic_multihop_search_path,
}
use dexmoney.Searcher.CyclePath.Valid.{IsClosed, is_valid_dynamic_cycle-iff-IsClosed}
use dexmoney.Searcher.Score.{ScanStats, ScoredDynamicPath}
use dexmoney.Searcher.Score.Paths.{score-OfCycle, scored-path}
use dexmoney.Searcher.Scan.{
  Scan, none_left, each, push_scored, range_from, is_seen, try_cycle, try_cycles, try_suffixes,
  try_position, add_dynamic_cycles_for_changed_edge, scan_edge, scan_pool, scan_anchors,
}

range_from-bounds :
    (first n : ℕ) {x : ℕ} → Memᴰ x (range_from first n) → (first ≤ x) × (x < first + n)
unfolding range_from
range_from-bounds first zero m = absurd (Memᴰ.not-nil m)
range_from-bounds first (suc n) m = elim (Memᴰ.cases_cons m) [
  | inl e ↦ omega arith
  | inr rest ↦ let (a, b) = range_from-bounds (first + 1) n rest in omega arith
]

range_from-lt : (n : ℕ) {x : ℕ} → Memᴰ x (range_from 0 n) → x < n
range_from-lt n m = let (a, b) = range_from-bounds 0 n m in omega arith

module _ (quote_balancer_weighted_exact_in : PoolState → Address → Address → ℕ → Result String ℕ)
    (graph : GraphSnapshot) where
  module _ (priority_pools changed_pools : List Address) (anchors : List AnchorSearchConfig) where
    -- The edge belongs to one of the changed pools.
    abbrev pub IsChanged : OwnedPoolEdge → Type 0
    IsChanged edge =
        (pool : Address) × (edges : List OwnedPoolEdge) × Memᴰ pool changed_pools
        × (pool_edges graph pool ≡ some edges)
        × Memᴰ edge edges

    -- A walk to the changed edge, that edge, and a walk back make a cycle of three or four edges.
    abbrev pub Closes : Address → List OwnedPoolEdge → OwnedPoolEdge → List OwnedPoolEdge → Type 0
    Closes token prefix edge suffix =
        IsWalk graph priority_pools token edge.token_in prefix
        × IsWalk graph priority_pools edge.token_out token suffix
        × IsClosed token (prefix ++ edge ∷ suffix)
        × ((length (prefix ++ edge ∷ suffix) ≡ 3) ⊎ (length (prefix ++ edge ∷ suffix) ≡ 4))

    -- The path is that of such a cycle from one of the anchors through a changed pool.
    abbrev pub Found : SearchPath → Type 0
    Found path =
        (anchor : AnchorSearchConfig) × (prefix : List OwnedPoolEdge) × (edge : OwnedPoolEdge)
        × (suffix : List OwnedPoolEdge) × Memᴰ anchor anchors
        × IsChanged edge
        × Closes anchor.token prefix edge suffix
        × (path ≡ build_dynamic_multihop_search_path graph anchor (prefix ++ edge ∷ suffix))

    pub record Holds (s : Scan) : Type 0 where
      pub right : Coherent graph priority_pools s.cache
      pub found : (p : ScoredDynamicPath) → Memᴰ p s.paths → Found p.path

    each-Holds {ℓ} :
        {A : Type ℓ} (f : A → Scan → Scan × Bool) (xs : List A)
        → ((x : A) (s : Scan) → Memᴰ x xs → Holds s → Holds (f x s).0)
        → (s : Scan) → Holds s
        → Holds (each f xs s).0
    unfolding each
    each-Holds f [] keep s h = h
    each-Holds f (x ∷ xs) keep s h = elim (Bool-cases (f x s).1) [
      | inl e ↦ rw e (keep x s (Memᴰ.head refl) h)
      | inr e ↦ rw e (
          each-Holds f xs (λ y t m. keep y t (Memᴰ.tail m)) (f x s).0 (keep x s (Memᴰ.head refl) h))
    ]

    push_scored-Holds :
        (scored : Option ScoredDynamicPath × ScanStats) (s : Scan)
        → ((p : ScoredDynamicPath) → scored.0 ≡ some p → Found p.path)
        → Holds s
        → Holds (push_scored scored s).0
    unfolding push_scored
    push_scored-Holds (none, stats) s good h = record { right = h.right; found = h.found }
    push_scored-Holds (some path, stats) s good h = record {
      right = h.right;
      found = λ p m. elim (Memᴰ.append_cases s.paths m) [
        | inl old ↦ h.found p old
        | inr new ↦ good p (ap some (sym (Memᴰ.eq_of_singleton new)))
      ];
    }

    module _ (anchor : AnchorSearchConfig) (edge : OwnedPoolEdge) (configured : Memᴰ anchor anchors)
        (changed : IsChanged edge) where
      try_cycle-Holds :
          (prefix suffix : List OwnedPoolEdge) (s : Scan)
          → IsWalk graph priority_pools anchor.token edge.token_in prefix
          → IsWalk graph priority_pools edge.token_out anchor.token suffix
          → (length (prefix ++ edge ∷ suffix) ≡ 3) ⊎ (length (prefix ++ edge ∷ suffix) ≡ 4)
          → Holds s
          → Holds
              (try_cycle quote_balancer_weighted_exact_in graph priority_pools anchor edge
                (prefix ++ edge ∷ suffix)
                s).0
      unfolding try_cycle
      try_cycle-Holds prefix suffix s there back count h =
          let cycle = prefix ++ edge ∷ suffix in
          elim (Bool-cases (is_valid_dynamic_cycle anchor.token cycle)) [
            | inr e ↦ rw e (record { right = h.right; found = h.found })
            | inl e ↦ elim (Bool-cases (is_seen s.seen (cycle_fingerprint anchor.token cycle))) [
              | inl old ↦ rw (e, old) (record { right = h.right; found = h.found })
              | inr new ↦
                  rw (e, new)
                    (push_scored-Holds _ _
                      (λ p eq. (
                        anchor,
                        prefix,
                        edge,
                        suffix,
                        configured,
                        changed,
                        (
                          there,
                          back,
                          (is_valid_dynamic_cycle-iff-IsClosed anchor.token cycle).0 e,
                          count,
                        ),
                        scored-path quote_balancer_weighted_exact_in graph anchor cycle _
                            (score-OfCycle quote_balancer_weighted_exact_in graph anchor cycle
                              s.stats)
                            eq,
                      ))
                      (record { right = h.right; found = h.found }))
            ]
          ]

      module _ (cycle_len : ℕ) (short : (cycle_len ≡ 3) ⊎ (cycle_len ≡ 4)) where
        count_edges :
            (prefix suffix : List OwnedPoolEdge)
            → length prefix < cycle_len
            → length suffix ≡ cycle_len - length prefix - 1
            → (length (prefix ++ edge ∷ suffix) ≡ 3) ⊎ (length (prefix ++ edge ∷ suffix) ≡ 4)
        count_edges prefix suffix before behind =
            let total : length (prefix ++ edge ∷ suffix) ≡ cycle_len =
              omega (arith, length-append prefix (edge ∷ suffix)) in
            rw total short

        try_cycles-Holds :
            (position : ℕ) (prefixes suffixes : Segments) (s : Scan)
            → position < cycle_len
            → ((p : List OwnedPoolEdge)
                → Memᴰ p prefixes
                → IsWalk graph priority_pools anchor.token edge.token_in p × (length p ≡ position))
            → ((p : List OwnedPoolEdge)
                → Memᴰ p suffixes
                → IsWalk graph priority_pools edge.token_out anchor.token p
                  × (length p ≡ cycle_len - position - 1))
            → Holds s
            → Holds
                (try_cycles quote_balancer_weighted_exact_in graph priority_pools anchor edge
                  prefixes suffixes s).0
        unfolding try_cycles
        try_cycles-Holds position prefixes suffixes s before there back h =
            each-Holds _ prefixes
              (λ prefix t mp.
                each-Holds _ suffixes
                  (λ suffix u ms.
                    let (walk, count) = there prefix mp in
                    let (walk', count') = back suffix ms in
                    try_cycle-Holds prefix suffix u walk walk'
                      (count_edges prefix suffix (omega arith) (omega arith)))
                  t)
              s h

        try_suffixes-Holds :
            (position : ℕ) (prefixes : Segments) (s : Scan)
            → position < cycle_len
            → ((p : List OwnedPoolEdge)
                → Memᴰ p prefixes
                → IsWalk graph priority_pools anchor.token edge.token_in p × (length p ≡ position))
            → Holds s
            → Holds
                (try_suffixes quote_balancer_weighted_exact_in graph priority_pools anchor edge
                  prefixes
                  (cycle_len - position - 1)
                  s).0
        unfolding try_suffixes
        try_suffixes-Holds position prefixes s before there h =
            let len = cycle_len - position - 1 in
            let found = get graph priority_pools edge.token_out anchor.token len s.cache in
            let right =
              (get-eq-walks graph priority_pools edge.token_out anchor.token len s.cache
                h.right).1 in
            elim (Bool-cases (none_left found.out)) [
              | inl e ↦ rw e (record { right = right; found = h.found })
              | inr e ↦ rw e (
                  try_cycles-Holds position prefixes found.out (record s { cache = found.cache })
                    before there
                    (λ p m.
                      let goes =
                        (get-Finds graph priority_pools edge.token_out anchor.token len s.cache
                            h.right).0
                          p m in
                      (goes.0, goes.1))
                    (record { right = right; found = h.found }))
            ]

        try_position-Holds :
            (position : ℕ) (s : Scan)
            → position < cycle_len
            → Holds s
            → Holds
                (try_position quote_balancer_weighted_exact_in graph priority_pools anchor edge
                  cycle_len position s).0
        unfolding try_position
        try_position-Holds position s before h =
            let found = get graph priority_pools anchor.token edge.token_in position s.cache in
            let right =
              (get-eq-walks graph priority_pools anchor.token edge.token_in position s.cache
                h.right).1 in
            elim (Bool-cases (none_left found.out)) [
              | inl e ↦ rw e (record { right = right; found = h.found })
              | inr e ↦ rw e (
                  try_suffixes-Holds position found.out (record s { cache = found.cache }) before
                    (λ p m.
                      let goes =
                        (get-Finds graph priority_pools anchor.token edge.token_in position s.cache
                            h.right).0
                          p m in
                      (goes.0, goes.1))
                    (record { right = right; found = h.found }))
            ]

        add_dynamic_cycles-Holds :
            (s : Scan)
            → Holds s
            → Holds (
                add_dynamic_cycles_for_changed_edge quote_balancer_weighted_exact_in graph
                  priority_pools anchor edge cycle_len s)
        unfolding add_dynamic_cycles_for_changed_edge
        add_dynamic_cycles-Holds s h =
            each-Holds _ (range_from 0 cycle_len)
              (λ position t m. try_position-Holds position t (range_from-lt cycle_len m)) _
              (record { right = h.right; found = h.found })

      scan_edge-Holds :
          (s : Scan)
          → Holds s
          → Holds (scan_edge quote_balancer_weighted_exact_in graph priority_pools anchor edge s).0
      unfolding scan_edge
      scan_edge-Holds s h =
          add_dynamic_cycles-Holds 4 (inr refl) _ (add_dynamic_cycles-Holds 3 (inl refl) s h)

    scan_pool-Holds :
        (anchor : AnchorSearchConfig) (pool : Address) (s : Scan)
        → Memᴰ anchor anchors
        → Memᴰ pool changed_pools
        → Holds s
        → Holds (scan_pool quote_balancer_weighted_exact_in graph priority_pools anchor pool s).0
    unfolding scan_pool
    scan_pool-Holds anchor pool s configured changed h =
        elim (Option-cases (pool_edges graph pool)) [
          | inl e ↦ rw (e, scan_pool) h
          | inr (edges, e) ↦
              rw (e, scan_pool)
                (each-Holds _ edges
                  (λ edge t m.
                    scan_edge-Holds anchor edge configured (pool, edges, changed, e, m) t)
                  s h)
        ]

    pub scan_anchors-Holds :
        (s : Scan)
        → Holds s
        → Holds
            (scan_anchors quote_balancer_weighted_exact_in graph priority_pools changed_pools
              anchors s).0
    unfolding scan_anchors
    scan_anchors-Holds s h =
        each-Holds _ anchors
          (λ anchor t configured.
            each-Holds _ changed_pools
              (λ pool u changed. scan_pool-Holds anchor pool u configured changed) t)
          s h
