-- ===== src/Searcher/CyclePath/Valid.antt =====
-- What `is_valid_dynamic_cycle` accepts.
use mathlib.Core.List.{Memᴰ}
use mathlib.Core.List.Memᴰ
use dexmoney.Prelude.{
  ℕ, Bool, true, false, ◌||◌, List, [], ◌∷◌, ◌==◌, ◌≡◌, ◌↔◌, refl, sym, inl, inr, map, take, length,
  if◌then◌else◌, arith, Bool-cases, ==_iff, ◌&&◌,
}
use dexmoney.Common.Pool.{Address}
use dexmoney.Searcher.Graph.{OwnedPoolEdge, contains}
use dexmoney.Searcher.CyclePath.{
  distinct_pools, distinct_tokens, last_token, is_valid_dynamic_cycle,
}

-- No address stands twice.
abbrev pub Distinct : List Address → Type 0
Distinct [] = Unit
Distinct (x ∷ xs) = ¬ Memᴰ x xs × Distinct xs

-- The first edge leaves the anchor and the last one enters it, no pool stands twice, and none of the other
-- edges enters the anchor or a token that another of them enters. Whether each edge starts where the one
-- before ended is not asked.
abbrev pub IsClosed : Address → List OwnedPoolEdge → Type 0
IsClosed anchor [] = ⊥
IsClosed anchor (edge ∷ edges) =
    (edge.token_in ≡ anchor)
    × (last_token edge edges ≡ anchor)
    × Distinct (map (λ e. e.pool) (edge ∷ edges))
    × Distinct (anchor ∷ map (λ e. e.token_out) (take (length edges) (edge ∷ edges)))

contains-iff-mem : (xs : List Address) (x : Address) → (contains xs x ≡ true) ↔ Memᴰ x xs
contains-iff-mem [] x = (λ h. cc, λ m. absurd (Memᴰ.not-nil m))
contains-iff-mem (y ∷ xs) x = elim (Bool-cases (y == x)) [
  | inl e ↦ rw e (λ h. Memᴰ.head (sym ((==_iff y x).0 e)), λ m. refl)
  | inr e ↦ rw e (
    λ h. Memᴰ.tail ((contains-iff-mem xs x).0 h),
    λ m. elim (Memᴰ.cases_cons m) [
      | inl same ↦ cc (e, (==_iff y x).1 (sym same))
      | inr rest ↦ (contains-iff-mem xs x).1 rest
    ],
  )
]

not-mem_of_contains : (xs : List Address) (x : Address) → contains xs x ≡ false → ¬ Memᴰ x xs
not-mem_of_contains xs x h m = cc (h, (contains-iff-mem xs x).1 m)

contains-eq-false : (xs : List Address) (x : Address) → ¬ Memᴰ x xs → contains xs x ≡ false
contains-eq-false xs x h = elim (Bool-cases (contains xs x)) [
  | inl e ↦ absurd (h ((contains-iff-mem xs x).0 e))
  | inr e ↦ e
]

-- A loop that ends at an element that is barred or was seen before.
all_new : List Address → List Address → List Address → Bool
all_new barred [] seen = true
all_new barred (x ∷ xs) seen =
    if contains barred x || contains seen x then false else all_new barred xs (x ∷ seen)

abbrev Apart : List Address → List Address → Type 0
Apart xs ys = (x : Address) → Memᴰ x xs → ¬ Memᴰ x ys

all_new_sound :
    (barred xs seen : List Address)
    → all_new barred xs seen ≡ true
    → Distinct xs × Apart xs barred × Apart xs seen
unfolding all_new
all_new_sound barred [] seen h =
    (tt, λ x m. absurd (Memᴰ.not-nil m), λ x m. absurd (Memᴰ.not-nil m))
all_new_sound barred (x ∷ xs) seen h = elim (Bool-cases (contains barred x)) [
  | inl e ↦ cc (rw e at h)
  | inr e ↦ elim (Bool-cases (contains seen x)) [
    | inl s ↦ cc (rw (e, s) at h)
    | inr s ↦
        let (distinct, free, new) = all_new_sound barred xs (x ∷ seen) (rw (e, s) at h) in
        (
          (λ m. new x m (Memᴰ.head refl), distinct),
          λ y m. elim (Memᴰ.cases_cons m) [
            | inl same ↦ rw same (not-mem_of_contains barred x e)
            | inr rest ↦ free y rest
          ],
          λ y m. elim (Memᴰ.cases_cons m) [
            | inl same ↦ rw same (not-mem_of_contains seen x s)
            | inr rest ↦ λ k. new y rest (Memᴰ.tail k)
          ],
        )
  ]
]

all_new_complete :
    (barred xs seen : List Address)
    → Distinct xs
    → Apart xs barred
    → Apart xs seen
    → all_new barred xs seen ≡ true
unfolding all_new
all_new_complete barred [] seen d free new = refl
all_new_complete barred (x ∷ xs) seen (d, ds) free new =
    rw
      (
        contains-eq-false barred x (free x (Memᴰ.head refl)),
        contains-eq-false seen x (new x (Memᴰ.head refl)),
      )
      (all_new_complete barred xs (x ∷ seen) ds (λ y m. free y (Memᴰ.tail m))
        (λ y m k. elim (Memᴰ.cases_cons k) [
          | inl same ↦ d (Memᴰ.cast (sym same) m)
          | inr rest ↦ new y (Memᴰ.tail m) rest
        ]))

distinct_pools-eq :
    (edges : List OwnedPoolEdge) (seen : List Address)
    → distinct_pools edges seen ≡ all_new [] (map (λ e. e.pool) edges) seen
unfolding distinct_pools all_new
distinct_pools-eq [] seen = refl
distinct_pools-eq (edge ∷ edges) seen = rw (distinct_pools-eq edges (edge.pool ∷ seen))

==_comm : (a b : ℕ) → ((a == b) || false) ≡ (b == a)
==_comm a b = ground arith

distinct_tokens-eq :
    (anchor : Address) (edges : List OwnedPoolEdge) (seen : List Address)
    → distinct_tokens anchor edges seen ≡ all_new (anchor ∷ []) (map (λ e. e.token_out) edges) seen
unfolding distinct_tokens all_new
distinct_tokens-eq anchor [] seen = refl
distinct_tokens-eq anchor (edge ∷ edges) seen =
    rw (==_comm anchor edge.token_out, distinct_tokens-eq anchor edges (edge.token_out ∷ seen))

distinct_pools_iff :
    (edges : List OwnedPoolEdge)
    → (distinct_pools edges [] ≡ true) ↔ Distinct (map (λ e. e.pool) edges)
distinct_pools_iff edges = rw (distinct_pools-eq edges []) (
  λ h. (all_new_sound [] _ [] h).0,
  λ d. all_new_complete [] _ [] d (λ x m k. Memᴰ.not-nil k) (λ x m k. Memᴰ.not-nil k),
)

distinct_tokens_iff :
    (anchor : Address) (edges : List OwnedPoolEdge)
    → (distinct_tokens anchor edges [] ≡ true) ↔ Distinct (anchor ∷ map (λ e. e.token_out) edges)
distinct_tokens_iff anchor edges = rw (distinct_tokens-eq anchor edges []) (
  λ h.
      let (d, free, new) = all_new_sound (anchor ∷ []) _ [] h in
      (λ m. free anchor m (Memᴰ.head refl), d),
  λ h.
      all_new_complete (anchor ∷ []) _ [] h.1
        (λ x m k. h.0 (Memᴰ.cast (sym (Memᴰ.eq_of_singleton k)) m)) (λ x m k. Memᴰ.not-nil k),
)

and_iff : (a b : Bool) → ((a && b) ≡ true) ↔ ((a ≡ true) × (b ≡ true))
and_iff a b = ground arith

-- Exactly those lists of edges are accepted whose first edge leaves the anchor and whose last enters it, which
-- use no pool twice, and whose other edges enter neither the anchor nor any token twice. Nothing is said of
-- whether neighbouring edges connect.
pub is_valid_dynamic_cycle-iff-IsClosed :
    (anchor : Address) (edges : List OwnedPoolEdge)
    → (is_valid_dynamic_cycle anchor edges ≡ true) ↔ IsClosed anchor edges
unfolding is_valid_dynamic_cycle
is_valid_dynamic_cycle-iff-IsClosed anchor [] = (λ h. cc, λ h. absurd h)
is_valid_dynamic_cycle-iff-IsClosed anchor (edge ∷ edges) =
    let (pools, pools') = distinct_pools_iff (edge ∷ edges) in
    let (tokens, tokens') = distinct_tokens_iff anchor (take (length edges) (edge ∷ edges)) in
    elim (Bool-cases (edge.token_in == anchor)) [
      | inr e ↦ rw e (λ h. cc, λ h. cc (e, (==_iff edge.token_in anchor).1 h.0))
      | inl e ↦ elim (Bool-cases (last_token edge edges == anchor)) [
        | inr l ↦ rw (e, l) (λ h. cc, λ h. cc (l, (==_iff (last_token edge edges) anchor).1 h.1))
        | inl l ↦
            rw (e, l)
              (
                λ h.
                    let (p, t) = (and_iff (distinct_pools (edge ∷ edges) []) _).0 h in
                    ((==_iff _ _).0 e, (==_iff _ _).0 l, pools p, tokens t),
                λ h. (and_iff _ _).1 (pools' h.2, tokens' h.3),
              )
      ]
    ]
