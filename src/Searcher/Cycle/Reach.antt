-- ===== src/Searcher/Cycle/Reach.antt =====
-- The searches without a cache and without pruning, and `can_reach` with its cache.
use dexmoney.Prelude.{
  ℕ, zero, suc, Bool, true, false, ◌||◌, Option, some, List, [], ◌∷◌, ◌++◌, ◌==◌, ◌≡◌, refl, ◌∙◌,
  inl, inr, if◌then◌else◌, any, take, arith, Bool-cases, Option-cases,
}
use dexmoney.Common.Pool.{Address}
use dexmoney.Searcher.Graph.{GraphSnapshot, OwnedPoolEdge, candidate_edges_from_token}
use dexmoney.Searcher.Cycle.{
  Segments, SegmentPathCache, empty_cache, max_dynamic_segment_paths, has_pool, is_key, any_cached,
  can_reach, insert_reachable, insert_paths, keep_reachable, recall_reachable,
}

module _ (graph : GraphSnapshot) (priority_pools : List Address) where
  or-eq-false : (a b : Bool) → (a || b) ≡ false → (a ≡ false) × (b ≡ false)
  or-eq-false a b h = ground arith

  -- Whether some walk of so many edges leads from one token to the other.
  unfoldable pub reaches : ℕ → Address → Address → Bool
  reaches zero start end = start == end
  reaches (suc n) start end =
      any (λ edge. reaches n edge.token_out end)
        (candidate_edges_from_token graph start priority_pools)

  -- The walks behind each of the edges that has a new pool.
  unfoldable pub walks_behind :
      (Address → List OwnedPoolEdge → Segments) → List OwnedPoolEdge → List OwnedPoolEdge → Segments
  walks_behind go current [] = []
  walks_behind go current (edge ∷ edges) =
      (if has_pool current edge.pool then [] else go edge.token_out (current ++ edge ∷ []))
      ++ walks_behind go current edges

  -- All walks of so many edges between two tokens that go on from a path and use no pool twice.
  unfoldable pub walks : ℕ → Address → Address → List OwnedPoolEdge → Segments
  unfolding walks_behind
  walks zero token end current = if token == end then current ∷ [] else []
  walks (suc n) token end current =
      walks_behind (λ next extended. walks n next end extended) current
        (candidate_edges_from_token graph token priority_pools)

  -- What the cache knows is right.
  pub record Coherent (cache : SegmentPathCache) : Type 0 where
    pub reach :
        (s e n : ℕ) (found : Bool) → cache.reachable s e n ≡ some found → found ≡ reaches n s e
    pub segments :
        (s e n : ℕ) (found : Segments)
        → cache.paths s e n ≡ some found
        → found ≡ take max_dynamic_segment_paths (walks n s e [])

  pub empty_cache-Coherent : Coherent empty_cache
  empty_cache-Coherent = record { reach = λ s e n found h. cc; segments = λ s e n found h. cc }

  -- The answer is right and the cache stays right.
  abbrev pub Answers : Bool → Bool × SegmentPathCache → Type 0
  Answers b r = (r.0 ≡ b) × Coherent r.1

  is_key_sound :
      (start end n s e m : ℕ) → is_key start end n s e m ≡ true → (s ≡ start) × (e ≡ end) × (m ≡ n)
  is_key_sound start end n s e m h = ground arith

  -- A key that is written answers with what was written, the others as before.
  written {ℓ} :
      {A : Type ℓ} {P : Type 0} (b : Bool) (a : A) (o : Option A) {known : A}
      → (if b then some a else o) ≡ some known
      → (b ≡ true → known ≡ a → P)
      → (o ≡ some known → P)
      → P
  written true a o h new old = new refl cc
  written false a o h new old = old h

  pub insert_reachable-Coherent :
      (start end n : ℕ) (found : Bool) (cache : SegmentPathCache)
      → found ≡ reaches n start end
      → Coherent cache
      → Coherent (insert_reachable start end n found cache)
  unfolding insert_reachable
  insert_reachable-Coherent start end n found cache right c = record {
    reach = λ s e m known h.
        written (is_key start end n s e m) found (cache.reachable s e m) h
          (λ same eq.
            let (hs, he, hm) = is_key_sound start end n s e m same in rw (hs, he, hm) (eq ∙ right))
          (c.reach s e m known);
    segments = c.segments;
  }

  pub insert_paths-Coherent :
      (start end n : ℕ) (found : Segments) (cache : SegmentPathCache)
      → found ≡ take max_dynamic_segment_paths (walks n start end [])
      → Coherent cache
      → Coherent (insert_paths start end n found cache)
  unfolding insert_paths
  insert_paths-Coherent start end n found cache right c = record {
    reach = c.reach;
    segments = λ s e m known h.
        written (is_key start end n s e m) found (cache.paths s e m) h
          (λ same eq.
            let (hs, he, hm) = is_key_sound start end n s e m same in rw (hs, he, hm) (eq ∙ right))
          (c.segments s e m known);
  }

  -- Asking the cache first changes no answer.
  recall_reachable-Answers :
      (start end n : ℕ) (compute : SegmentPathCache → Bool × SegmentPathCache)
      (cache : SegmentPathCache)
      → Coherent cache
      → Answers (reaches n start end) (compute cache)
      → Answers (reaches n start end) (recall_reachable start end n compute cache)
  unfolding recall_reachable keep_reachable
  recall_reachable-Answers start end n compute cache c right =
      elim (Option-cases (cache.reachable start end n)) [
        | inl e ↦
            rw (e, recall_reachable)
              (
                right.0,
                insert_reachable-Coherent start end n (compute cache).0 (compute cache).1 right.0
                    right.1,
              )
        | inr (found, e) ↦ rw (e, recall_reachable) (c.reach start end n found e, c)
      ]

  any_cached-Answers :
      (test : OwnedPoolEdge → SegmentPathCache → Bool × SegmentPathCache) (b : OwnedPoolEdge → Bool)
      → ((edge : OwnedPoolEdge) (cache : SegmentPathCache)
          → Coherent cache
          → Answers (b edge) (test edge cache))
      → (edges : List OwnedPoolEdge) (cache : SegmentPathCache) → Coherent cache
      → Answers (any b edges) (any_cached test edges cache)
  unfolding any_cached
  any_cached-Answers test b right [] cache c = (refl, c)
  any_cached-Answers test b right (edge ∷ edges) cache c =
      let (eq, kept) = right edge cache c in
      elim (Bool-cases (b edge)) [
        | inl e ↦ rw (eq, e) (refl, kept)
        | inr e ↦ rw (eq, e) (any_cached-Answers test b right edges (test edge cache).1 kept)
      ]

  nothing_either_way : (t : Bool) → ◌≡◌ {A = Segments} ((if t then [] else []) ++ []) []
  nothing_either_way true = refl
  nothing_either_way false = refl

  walks_behind-none :
      (b : OwnedPoolEdge → Bool) (go : Address → List OwnedPoolEdge → Segments)
      (current : List OwnedPoolEdge)
      → ((edge : OwnedPoolEdge) (extended : List OwnedPoolEdge)
          → b edge ≡ false
          → go edge.token_out extended ≡ [])
      → (edges : List OwnedPoolEdge) → any b edges ≡ false
      → walks_behind go current edges ≡ []
  unfolding walks_behind
  walks_behind-none b go current none_there [] h = refl
  walks_behind-none b go current none_there (edge ∷ edges) h =
      let (he, hs) = or-eq-false (b edge) (any b edges) h in
      rw
        (
          none_there edge (current ++ edge ∷ []) he,
          walks_behind-none b go current none_there edges hs,
        )
        (nothing_either_way (has_pool current edge.pool))

  -- From a cache that is right, `can_reach` answers as the search without a cache, and the cache stays
  -- right.
  pub can_reach-Answers :
      (n : ℕ) (start end : Address) (cache : SegmentPathCache)
      → Coherent cache
      → Answers (reaches n start end) (can_reach graph priority_pools n start end cache)
  unfolding can_reach reaches
  can_reach-Answers zero start end cache c =
      recall_reachable-Answers start end 0 (λ k. (start == end, k)) cache c (refl, c)
  can_reach-Answers (suc n) start end cache c =
      recall_reachable-Answers start end (suc n) _ cache c (
        any_cached-Answers _ (λ edge. reaches n edge.token_out end)
          (λ edge k. can_reach-Answers n edge.token_out end k) _ cache c)

  -- Where no walk leads to the end, there is none that avoids the pools of a path.
  pub walks-none :
      (n : ℕ) (token end : Address) (current : List OwnedPoolEdge)
      → reaches n token end ≡ false
      → walks n token end current ≡ []
  unfolding walks reaches
  walks-none zero token end current h = rw h
  walks-none (suc n) token end current h =
      walks_behind-none (λ edge. reaches n edge.token_out end) _ current
        (λ edge extended. walks-none n edge.token_out end extended) _ h
