-- ===== src/Searcher/Cycle/Walks.antt =====
-- What the segments of the search are: the walks that use no pool twice.
use mathlib.Core.Path.{subst}
use mathlib.Core.List.{append_assoc, Memᴰ}
use mathlib.Core.List.Memᴰ
use dexmoney.Prelude.{
  ℕ, zero, suc, false, List, [], ◌∷◌, ◌++◌, ◌≤◌, ◌<◌, ◌==◌, ◌≡◌, refl, sym, ◌∙◌, inl, inr,
  if◌then◌else◌, take-mem, take-short, length, length-take, append-nil, arith, Bool-cases, ==_iff,
}
use dexmoney.Common.Pool.{Address}
use dexmoney.Searcher.Graph.{GraphSnapshot, OwnedPoolEdge, candidate_edges_from_token}
use dexmoney.Searcher.Cycle.{Segments, SegmentPathCache, max_dynamic_segment_paths, has_pool, get}
use dexmoney.Searcher.Cycle.Reach.{walks, walks_behind, Coherent}
use dexmoney.Searcher.Cycle.Segments.{get-eq-walks}

-- No edge's pool is a pool of the path or of an edge before it.
abbrev pub Fresh : List OwnedPoolEdge → List OwnedPoolEdge → Type 0
Fresh current [] = Unit
Fresh current (edge ∷ edges) =
    (has_pool current edge.pool ≡ false) × Fresh (current ++ edge ∷ []) edges

module _ (graph : GraphSnapshot) (priority_pools : List Address) where
  -- Each edge is one that the graph offers from the token that the edges before it lead to.
  abbrev pub IsWalk : Address → Address → List OwnedPoolEdge → Type 0
  IsWalk start end [] = start ≡ end
  IsWalk start end (edge ∷ edges) =
      Memᴰ edge (candidate_edges_from_token graph start priority_pools)
      × IsWalk edge.token_out end edges

  -- A walk of so many edges between two tokens that goes on from a path and uses no pool twice.
  abbrev pub GoesOn : ℕ → Address → Address → List OwnedPoolEdge → List OwnedPoolEdge → Type 0
  GoesOn n start end current edges =
      IsWalk start end edges × (length edges ≡ n) × Fresh current edges

  -- What is found behind some edges is found behind one of them that has a new pool.
  walks_behind-mem :
      (go : Address → List OwnedPoolEdge → Segments) (current edges : List OwnedPoolEdge)
      {p : List OwnedPoolEdge}
      → Memᴰ p (walks_behind graph priority_pools go current edges)
      → (edge : OwnedPoolEdge) × Memᴰ edge edges
        × (has_pool current edge.pool ≡ false)
        × Memᴰ p (go edge.token_out (current ++ edge ∷ []))
  unfolding walks_behind
  walks_behind-mem go current [] m = absurd (Memᴰ.not-nil m)
  walks_behind-mem go current (edge ∷ edges) m =
      elim (Memᴰ.append_cases
        (if has_pool current edge.pool then [] else go edge.token_out (current ++ edge ∷ [])) m) [
          | inl here ↦ elim (Bool-cases (has_pool current edge.pool)) [
            | inl used ↦ absurd (Memᴰ.not-nil (rw used at here))
            | inr new ↦ (edge, Memᴰ.head refl, new, rw new at here)
          ]
          | inr there ↦
              let (found, m', new, behind) = walks_behind-mem go current edges there in
              (found, Memᴰ.tail m', new, behind)
        ]

  mem-walks_behind :
      (go : Address → List OwnedPoolEdge → Segments) (current : List OwnedPoolEdge)
      (edge : OwnedPoolEdge) (edges : List OwnedPoolEdge) {p : List OwnedPoolEdge}
      → Memᴰ edge edges
      → has_pool current edge.pool ≡ false
      → Memᴰ p (go edge.token_out (current ++ edge ∷ []))
      → Memᴰ p (walks_behind graph priority_pools go current edges)
  unfolding walks_behind
  mem-walks_behind go current edge [] m new behind = absurd (Memᴰ.not-nil m)
  mem-walks_behind go current edge (x ∷ edges) {p} m new behind = elim (Memᴰ.cases_cons m) [
    | inl e ↦ Memᴰ.append_left _ (
        subst
          (λ (y : OwnedPoolEdge).
            Memᴰ p (if has_pool current y.pool then [] else go y.token_out (current ++ y ∷ [])))
          e (rw new behind))
    | inr rest ↦ Memᴰ.append_right _ (mem-walks_behind go current edge edges rest new behind)
  ]

  walks_sound :
      (n : ℕ) (start end : Address) (current : List OwnedPoolEdge) {p : List OwnedPoolEdge}
      → Memᴰ p (walks graph priority_pools n start end current)
      → (edges : List OwnedPoolEdge) × (p ≡ current ++ edges) × GoesOn n start end current edges
  unfolding walks
  walks_sound zero start end current m = elim (Bool-cases (start == end)) [
    | inl e ↦ (
      [],
      Memᴰ.eq_of_singleton (rw e at m) ∙ append-nil current,
      ((==_iff start end).0 e, refl, tt),
    )
    | inr e ↦ absurd (Memᴰ.not-nil (rw e at m))
  ]
  walks_sound (suc n) start end current m =
      let (edge, offered, new, behind) =
        walks_behind-mem (λ next extended. walks graph priority_pools n next end extended) current _
          m in
      let (edges, eq, (walk, count, fresh)) =
        walks_sound n edge.token_out end (current ++ edge ∷ []) behind in
      (
        edge ∷ edges,
        eq ∙ append_assoc current (edge ∷ []) edges,
        ((offered, walk), omega arith, (new, fresh)),
      )

  walks_complete :
      (n : ℕ) (start end : Address) (current edges : List OwnedPoolEdge)
      → GoesOn n start end current edges
      → Memᴰ (current ++ edges) (walks graph priority_pools n start end current)
  unfolding walks
  walks_complete zero start end current [] (same, count, fresh) =
      rw ((==_iff start end).1 same, ← append-nil current) (Memᴰ.head refl)
  walks_complete zero start end current (edge ∷ edges) h = absurd (omega arith)
  walks_complete (suc n) start end current [] h = absurd (omega arith)
  walks_complete (suc n) start end current (edge ∷ edges) ((offered, walk), count, (new, fresh)) =
      mem-walks_behind (λ next extended. walks graph priority_pools n next end extended) current
        edge (candidate_edges_from_token graph start priority_pools) offered new
        (rw (← append_assoc current (edge ∷ []) edges) (
          walks_complete n edge.token_out end (current ++ edge ∷ []) edges
            (walk, omega arith, fresh)))

  -- From a cache that is right, each segment that is got is a walk of the asked length between the tokens
  -- that uses no pool twice; there are at most 256, and if there are fewer, every such walk is among them.
  pub get-Finds :
      (start end : Address) (edge_count : ℕ) (cache : SegmentPathCache)
      → Coherent graph priority_pools cache
      → ((p : List OwnedPoolEdge)
          → Memᴰ p (get graph priority_pools start end edge_count cache).out
          → GoesOn edge_count start end [] p)
        × (length (get graph priority_pools start end edge_count cache).out
            ≤ max_dynamic_segment_paths)
        × (length (get graph priority_pools start end edge_count cache).out
              < max_dynamic_segment_paths
            → (p : List OwnedPoolEdge) → GoesOn edge_count start end [] p
            → Memᴰ p (get graph priority_pools start end edge_count cache).out)
  get-Finds start end edge_count cache c =
      let (eq, kept) = get-eq-walks graph priority_pools start end edge_count cache c in
      let found = walks graph priority_pools edge_count start end [] in
      rw eq (
        λ p m.
            let (edges, e, goes) =
              walks_sound edge_count start end [] (take-mem max_dynamic_segment_paths found m) in
            subst (GoesOn edge_count start end []) (sym e) goes,
        length-take max_dynamic_segment_paths found,
        λ short p goes.
            rw (take-short max_dynamic_segment_paths found short)
              (walks_complete edge_count start end [] p goes),
      )
