-- ===== src/Searcher/Graph/Edges.antt =====
-- The edges of a snapshot: each belongs to a supported pool, and leads between that pool's two tokens.
use mathlib.Core.Path.{subst}
use mathlib.Core.List.{Memᴰ}
use mathlib.Core.List.Memᴰ
use dexmoney.Prelude.{
  some_injective, ℕ, zero, suc, true, some, List, [], ◌∷◌, ◌++◌, ◌≡◌, ◌⊎◌, refl, sym, inl, inr,
  ◌==◌, ==_iff, length, take, drop, retain, All, All-mem, mem-All, retain-All, retain-mem, take-mem,
  drop-mem, Bool-cases, Option-cases,
}
use dexmoney.Prelude.Sorting.{sort-mem}
use dexmoney.Common.Pool.{Address, PoolState}
use dexmoney.Searcher.Graph.{
  OwnedPoolEdge, EdgeMap, GraphSnapshot, empty_graph, is_supported_pool, edges_at, push_edge,
  add_edge, add_state, add_states, state_at, sort_entries, new, state, candidate_edges_from_token,
  chosen_edges, stands_before, forward_edge, backward_edge, max_dynamic_edge_fanout_per_token,
}

-- The edge leads from one token of the pool to the other.
abbrev pub Crosses : PoolState → OwnedPoolEdge → Type 0
Crosses st edge =
    (edge.pool ≡ st.pool_id.address)
    × (((edge.token_in ≡ st.token0) × (edge.token_out ≡ st.token1))
        ⊎ ((edge.token_in ≡ st.token1) × (edge.token_out ≡ st.token0)))

-- The edge's index is that of a supported pool that it crosses.
abbrev pub OfPool : List PoolState → OwnedPoolEdge → Type 0
OfPool states edge =
    (st : PoolState) × (state_at states edge.state_index ≡ some st)
    × (is_supported_pool st ≡ true)
    × Crosses st edge

abbrev Starts : List PoolState → Address → OwnedPoolEdge → Type 0
Starts states token edge = (edge.token_in ≡ token) × OfPool states edge

-- Each entry of the map by tokens holds edges from its token.
abbrev Sound : List PoolState → EdgeMap → Type 0
Sound states [] = Unit
Sound states ((token, edges) ∷ rest) = All (Starts states token) edges × Sound states rest

state_at-append :
    (states more : List PoolState) (index : ℕ) {st : PoolState}
    → state_at states index ≡ some st
    → state_at (states ++ more) index ≡ some st
state_at-append [] more index h = cc
state_at-append (x ∷ states) more zero h = h
state_at-append (x ∷ states) more (suc index) h = state_at-append states more index h

state_at-last :
    (states : List PoolState) (st : PoolState)
    → state_at (states ++ st ∷ []) (length states) ≡ some st
state_at-last [] st = refl
state_at-last (x ∷ states) st = state_at-last states st

All-Starts-append :
    (states more : List PoolState) (token : Address) (edges : List OwnedPoolEdge)
    → All (Starts states token) edges
    → All (Starts (states ++ more) token) edges
All-Starts-append states more token [] h = tt
All-Starts-append states more token (edge ∷ edges) ((from, (st, e, supported, crosses)), hs) = (
  (from, (st, state_at-append states more edge.state_index e, supported, crosses)),
  All-Starts-append states more token edges hs,
)

Sound-append :
    (states more : List PoolState) (m : EdgeMap) → Sound states m → Sound (states ++ more) m
Sound-append states more [] h = tt
Sound-append states more ((token, edges) ∷ m) (h, hs) =
    (All-Starts-append states more token edges h, Sound-append states more m hs)

All-append_one {ℓ κ} :
    {A : Type ℓ} (P : A → Type κ) (xs : List A) (x : A) → All P xs → P x → All P (xs ++ x ∷ [])
All-append_one P [] x h hx = (hx, tt)
All-append_one P (y ∷ xs) x (h, hs) hx = (h, All-append_one P xs x hs hx)

push_edge-Sound :
    (states : List PoolState) (edge : OwnedPoolEdge) (m : EdgeMap)
    → OfPool states edge
    → Sound states m
    → Sound states (push_edge edge.token_in edge m)
unfolding push_edge
push_edge-Sound states edge [] of h = (((refl, of), tt), tt)
push_edge-Sound states edge ((token, edges) ∷ m) of (h, hs) =
    elim (Bool-cases (token == edge.token_in)) [
      | inl e ↦
          rw e (All-append_one (Starts states token) edges edge h (sym ((==_iff _ _).0 e), of), hs)
      | inr e ↦ rw e (h, push_edge-Sound states edge m of hs)
    ]

add_state-Sound :
    (st : PoolState) (graph : GraphSnapshot)
    → is_supported_pool st ≡ true
    → Sound graph.pool_states graph.edges_by_token
    → Sound (add_state st graph).pool_states (add_state st graph).edges_by_token
unfolding add_state add_edge forward_edge backward_edge
add_state-Sound st graph supported h =
    let here = state_at-last graph.pool_states st in
    let states = graph.pool_states ++ st ∷ [] in
    let index = length graph.pool_states in
    push_edge-Sound states (backward_edge index st) _
      (st, here, supported, (refl, inr (refl, refl)))
      (push_edge-Sound states (forward_edge index st) _
        (st, here, supported, (refl, inl (refl, refl)))
        (Sound-append graph.pool_states (st ∷ []) graph.edges_by_token h))

add_states-Sound :
    (states : List PoolState) (graph : GraphSnapshot)
    → All (λ st. is_supported_pool st ≡ true) states
    → Sound graph.pool_states graph.edges_by_token
    → Sound (add_states states graph).pool_states (add_states states graph).edges_by_token
unfolding add_states
add_states-Sound [] graph supported h = h
add_states-Sound (st ∷ states) graph (s, ss) h =
    add_states-Sound states (add_state st graph) ss (add_state-Sound st graph s h)

sort_entries-Sound :
    (all states : List PoolState) (m : EdgeMap) → Sound all m → Sound all (sort_entries states m)
unfolding sort_entries
sort_entries-Sound all states [] h = tt
sort_entries-Sound all states ((token, edges) ∷ m) (h, hs) = (
  mem-All (Starts all token) _
      (λ edge mem. All-mem (Starts all token) edges h (sort-mem _ edges mem)),
  sort_entries-Sound all states m hs,
)

edges_at-Starts :
    (states : List PoolState) (token : Address) (m : EdgeMap) {edges : List OwnedPoolEdge}
    → Sound states m
    → edges_at m token ≡ some edges
    → All (Starts states token) edges
unfolding edges_at
edges_at-Starts states token [] h e = cc
edges_at-Starts states token ((k, found) ∷ m) {edges} (h, hs) e = elim (Bool-cases (k == token)) [
  | inl same ↦
      let eq : found ≡ edges = some_injective found edges (rw same at e) in
      subst (All (Starts states token)) eq
        (subst (λ t. All (Starts states t) found) ((==_iff _ _).0 same) h)
  | inr other ↦ edges_at-Starts states token m hs (rw other at e)
]

chosen_edges-mem :
    (edges : List OwnedPoolEdge) (priority_pools : List Address) {edge : OwnedPoolEdge}
    → Memᴰ edge (chosen_edges edges priority_pools)
    → Memᴰ edge edges
unfolding chosen_edges
chosen_edges-mem edges priority_pools m =
    elim (Memᴰ.append_cases (take max_dynamic_edge_fanout_per_token edges) m) [
      | inl near ↦ take-mem max_dynamic_edge_fanout_per_token edges near
      | inr far ↦
          drop-mem max_dynamic_edge_fanout_per_token edges
            (retain-mem _ (drop max_dynamic_edge_fanout_per_token edges) far)
    ]

-- Every edge that a new snapshot offers from a token starts at that token, and its index is that of a
-- supported pool whose address it has and between whose two tokens it leads.
pub candidate_edges_from_token-OfPool :
    (pool_states : List PoolState) (token : Address) (priority_pools : List Address)
    (edge : OwnedPoolEdge)
    → Memᴰ edge (candidate_edges_from_token (new pool_states) token priority_pools)
    → (edge.token_in ≡ token)
      × ((st : PoolState) × (state (new pool_states) edge ≡ some st)
          × (is_supported_pool st ≡ true)
          × Crosses st edge)
unfolding candidate_edges_from_token new state
candidate_edges_from_token-OfPool pool_states token priority_pools edge m =
    let graph = add_states (retain is_supported_pool pool_states) empty_graph in
    let entries = sort_entries graph.pool_states graph.edges_by_token in
    let sound : Sound graph.pool_states entries =
      sort_entries-Sound _ _ _ (add_states-Sound _ empty_graph (retain-All _ pool_states) tt) in
    elim (Option-cases (edges_at entries token)) [
      | inl e ↦ absurd (Memᴰ.not-nil (rw (e, candidate_edges_from_token) at m))
      | inr (edges, e) ↦
          All-mem (Starts graph.pool_states token) edges (edges_at-Starts _ token entries sound e) (
            chosen_edges-mem edges priority_pools
              (sort-mem stands_before _ (rw (e, candidate_edges_from_token) at m)))
    ]
