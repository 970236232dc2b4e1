-- ===== src/Searcher/Cycle/Segments.antt =====
-- `edge_paths_between` and the cache of its results against the search without cache and pruning.
use mathlib.Core.List.{append_assoc}
use dexmoney.Prelude.{
  ℕ, zero, suc, Bool, true, false, List, [], ◌∷◌, ◌++◌, ◌≤◌, ◌==◌, ◌≡◌, refl, sym, ap, ◌∙◌, inl,
  inr, if◌then◌else◌, take, take_all, take-take_append, take-append_full, length, length-take,
  length-append, append-nil, arith, Bool-cases, Option-cases, leb→le,
}
use dexmoney.Common.Pool.{Address}
use dexmoney.Searcher.Graph.{GraphSnapshot, OwnedPoolEdge, candidate_edges_from_token}
use dexmoney.Searcher.Cycle.{
  Segments, SegmentPathCache, Finding, max_dynamic_segment_paths, has_pool, is_full, push_path,
  can_reach, visit_edge, visit_edges, edge_paths_between_inner, explore, edge_paths_between,
  keep_paths, get,
}
use dexmoney.Searcher.Cycle.Reach.{
  reaches, walks, walks_behind, walks-none, Coherent, can_reach-Answers, insert_paths-Coherent,
}

abbrev cap_paths : Segments → Segments
cap_paths = take max_dynamic_segment_paths

module _ (graph : GraphSnapshot) (priority_pools : List Address) where
  -- A search that may go on: within the cap, with a cache that is right.
  abbrev Ready : Finding → Type 0
  Ready s = (length s.out ≤ max_dynamic_segment_paths) × Coherent graph priority_pools s.cache

  -- The second finding has the paths of the first and the given ones behind them, up to the cap.
  abbrev Reaps : Finding → Segments → Finding → Type 0
  Reaps s paths r = (r.out ≡ cap_paths (s.out ++ paths)) × Coherent graph priority_pools r.cache

  Reaps-Ready : (s : Finding) (paths : Segments) (r : Finding) → Reaps s paths r → Ready r
  Reaps-Ready s paths r (e, c) = (rw e (length-take _ (s.out ++ paths)), c)

  Reaps-trans : (s t u : Finding) (a b : Segments) → Reaps s a t → Reaps t b u → Reaps s (a ++ b) u
  Reaps-trans s t u a b (ea, ca) (eb, cb) = (
    eb
        ∙ ap (λ l. cap_paths (l ++ b)) ea
        ∙ take-take_append max_dynamic_segment_paths (s.out ++ a) b
        ∙ ap cap_paths (append_assoc s.out a b),
    cb,
  )

  -- Nothing is added.
  Reaps-none : (s : Finding) → Ready s → Reaps s [] s
  Reaps-none s (h, c) = (sym (take_all _ s.out h) ∙ ap cap_paths (append-nil s.out), c)

  -- A finding that is full takes nothing more.
  Reaps-full : (s : Finding) (paths : Segments) → Ready s → is_full s ≡ true → Reaps s paths s
  unfolding is_full
  Reaps-full s paths (h, c) full = (sym (take-append_full _ s.out paths h (leb→le _ _ full)), c)

  -- There is room for one more.
  room :
      (s : Finding) (path : List OwnedPoolEdge)
      → is_full s ≡ false
      → length (s.out ++ path ∷ []) ≤ max_dynamic_segment_paths
  unfolding is_full
  room s path h = ground (arith, length-append s.out (path ∷ []))

  module _ (n : ℕ) (end : Address) (go : Address → List OwnedPoolEdge → Finding → Finding)
      (right : (token : Address) (current : List OwnedPoolEdge) (s : Finding)
        → Ready s
        → Reaps s (walks graph priority_pools n token end current) (go token current s)) where
    visit_edge-Reaps :
        (current : List OwnedPoolEdge) (edge : OwnedPoolEdge) (s : Finding)
        → Ready s
        → Reaps s
            (if has_pool current edge.pool
              then []
              else walks graph priority_pools n edge.token_out end (current ++ edge ∷ []))
            (visit_edge graph priority_pools go n end current edge s)
    unfolding visit_edge
    visit_edge-Reaps current edge s (h, c) =
        let (eq, kept) = can_reach-Answers graph priority_pools n edge.token_out end s.cache c in
        let known = record s {
          cache = (can_reach graph priority_pools n edge.token_out end s.cache).1;
        } in
        let nothing : Reaps s [] known = Reaps-none known (h, kept) in
        elim (Bool-cases (has_pool current edge.pool)) [
          | inl u ↦ rw u (elim (Bool-cases (reaches graph priority_pools n edge.token_out end)) [
            | inl e ↦ rw (eq, e) nothing
            | inr e ↦ rw (eq, e) nothing
          ])
          | inr u ↦ rw u (elim (Bool-cases (reaches graph priority_pools n edge.token_out end)) [
            | inl e ↦ rw (eq, e) (right edge.token_out (current ++ edge ∷ []) known (h, kept))
            | inr e ↦
                rw
                  (
                    eq,
                    e,
                    walks-none graph priority_pools n edge.token_out end (current ++ edge ∷ []) e,
                  )
                  nothing
          ])
        ]

    visit_edges-Reaps :
        (current edges : List OwnedPoolEdge) (s : Finding)
        → Ready s
        → Reaps s
            (walks_behind graph priority_pools
              (λ next extended. walks graph priority_pools n next end extended)
              current
              edges)
            (visit_edges graph priority_pools go n end current edges s)
    unfolding visit_edges walks_behind
    visit_edges-Reaps current [] s ready = Reaps-none s ready
    visit_edges-Reaps current (edge ∷ edges) s ready = elim (Bool-cases (is_full s)) [
      | inl e ↦ rw e (Reaps-full s _ ready e)
      | inr e ↦
          let one = visit_edge-Reaps current edge s ready in
          rw e (
            Reaps-trans s (visit_edge graph priority_pools go n end current edge s) _ _ _ one
              (visit_edges-Reaps current edges _ (Reaps-Ready s _ _ one)))
    ]

  -- The inner search adds the walks that go on from its path.
  inner-Reaps :
      (n : ℕ) (token end : Address) (current : List OwnedPoolEdge) (s : Finding)
      → Ready s
      → Reaps s
          (walks graph priority_pools n token end current)
          (edge_paths_between_inner graph priority_pools n token end current s)
  unfolding edge_paths_between_inner walks push_path
  inner-Reaps zero token end current s ready = elim (Bool-cases (is_full s)) [
    | inl e ↦ rw e (Reaps-full s _ ready e)
    | inr e ↦ rw e (elim (Bool-cases (token == end)) [
      | inl same ↦ rw same (sym (take_all _ _ (room s current e)), ready.1)
      | inr other ↦ rw other (Reaps-none s ready)
    ])
  ]
  inner-Reaps (suc n) token end current s ready = elim (Bool-cases (is_full s)) [
    | inl e ↦ rw e (Reaps-full s _ ready e)
    | inr e ↦ rw e (
        visit_edges-Reaps n end
          (λ next extended found.
            edge_paths_between_inner graph priority_pools n next end extended found)
          (λ next extended found. inner-Reaps n next end extended found) current
          (candidate_edges_from_token graph token priority_pools) s ready)
  ]

  explore-Reaps :
      (n : ℕ) (start end : Address) (b : Bool) (cache : SegmentPathCache)
      → b ≡ reaches graph priority_pools n start end
      → Coherent graph priority_pools cache
      → Reaps
          (record { out = []; cache = cache })
          (walks graph priority_pools n start end [])
          (explore graph priority_pools n start end (b, cache))
  unfolding explore
  explore-Reaps n start end false cache e c =
      rw (walks-none graph priority_pools n start end [] (sym e)) (refl, c)
  explore-Reaps n start end true cache e c =
      inner-Reaps n start end [] (record { out = []; cache = cache }) (omega arith, c)

  edge_paths_between-Reaps :
      (n : ℕ) (start end : Address) (cache : SegmentPathCache)
      → Coherent graph priority_pools cache
      → Reaps
          (record { out = []; cache = cache })
          (walks graph priority_pools n start end [])
          (edge_paths_between graph priority_pools n start end cache)
  unfolding edge_paths_between walks
  edge_paths_between-Reaps zero start end cache c = elim (Bool-cases (start == end)) [
    | inl e ↦ rw e (refl, c)
    | inr e ↦ rw e (refl, c)
  ]
  edge_paths_between-Reaps (suc n) start end cache c =
      let (eq, kept) = can_reach-Answers graph priority_pools (suc n) start end cache c in
      explore-Reaps (suc n) start end _ _ eq kept

  -- From a cache that is right, the segments that are got are the first 256 walks of the search without a
  -- cache and without pruning, in its order, and the cache stays right.
  pub get-eq-walks :
      (start end : Address) (edge_count : ℕ) (cache : SegmentPathCache)
      → Coherent graph priority_pools cache
      → ((get graph priority_pools start end edge_count cache).out
          ≡ take max_dynamic_segment_paths (walks graph priority_pools edge_count start end []))
        × Coherent graph priority_pools (get graph priority_pools start end edge_count cache).cache
  unfolding get keep_paths
  get-eq-walks start end edge_count cache c =
      elim (Option-cases (cache.paths start end edge_count)) [
        | inl e ↦
            let (eq, kept) = edge_paths_between-Reaps edge_count start end cache c in
            rw (e, get)
              (eq, insert_paths-Coherent graph priority_pools start end edge_count _ _ eq kept)
        | inr (found, e) ↦ rw (e, get) (c.segments start end edge_count found e, c)
      ]
