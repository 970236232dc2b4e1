-- ===== src/Execution/Candidates/Coalesce.antt =====
-- Coalescing candidates keeps the best of each key.
use mathlib.Core.List.{Memᴰ}
use mathlib.Core.List.Memᴰ
use text.Mathlib.TextEquality.{eq_iff}
use dexmoney.Prelude.{
  ℕ, suc, ◌+◌, ◌≤◌, Bool, true, false, List, [], ◌∷◌, ltb, ◌≡◌, ◌≢◌, Pairwise, ◌↔◌, ◌⊎◌, refl, sym,
  ap, ◌∙◌, inl, inr, if◌then◌else◌, length, Bool-cases, arith,
}
use dexmoney.Prelude.Sorting.{sort-Pairwise, sort-mem, mem-sort, IsSorted, length-sort}
use dexmoney.Common.Opportunity.{Candidate}
use dexmoney.Execution.Candidates.{
  CandidateDedupKey, from_candidate, same_key, keep_best, coalesce, by_profit,
  coalesce_candidates_by_execution_key,
}
use dexmoney.Execution.Candidates.Drain.{sort-by_profit}

same_key_iff : (a b : CandidateDedupKey) → (same_key a b ≡ true) ↔ (a ≡ b)
unfolding same_key
same_key_iff a b = ground (arith, eq_iff a.path_name b.path_name)

-- Among some candidates there is one with the key of a candidate that is at least as profitable.
abbrev pub Covers : List Candidate → Candidate → Type 0
Covers kept c =
    (k : Candidate) × Memᴰ k kept
    × (from_candidate k ≡ from_candidate c)
    × (c.expected_profit ≤ k.expected_profit)

first-le :
    (x b b' k : Candidate)
    → x.expected_profit ≤ k.expected_profit
    → k ≡ b
    → b.expected_profit ≤ b'.expected_profit
    → x.expected_profit ≤ b'.expected_profit
first-le x b b' k h e p =
    let e' : k.expected_profit ≡ b.expected_profit = ap (λ (c : Candidate). c.expected_profit) e in
    omega arith

counted :
    (test : Bool) (a cs b n : ℕ)
    → a + (if test then 1 else 0) ≡ b + 1
    → cs + a + (if test then n + 1 else n) ≡ suc cs + b + n
counted true a cs b n h = omega arith
counted false a cs b n h = omega arith

Covers-tail :
    (b : Candidate) (kept : List Candidate) (x : Candidate) → Covers kept x → Covers (b ∷ kept) x
Covers-tail b kept x (k, m, e, p) = (k, Memᴰ.tail m, e, p)

-- A candidate that is covered by the first stays covered by one of its key that is as profitable.
Covers-head :
    (b b' : Candidate) (rest : List Candidate) (x : Candidate)
    → from_candidate b ≡ from_candidate b'
    → b.expected_profit ≤ b'.expected_profit
    → Covers (b ∷ rest) x
    → Covers (b' ∷ rest) x
Covers-head b b' rest x e p (k, m, ek, pk) = elim (Memᴰ.cases_cons m) [
  | inl here ↦
      (b', Memᴰ.head refl, sym e ∙ ap from_candidate (sym here) ∙ ek, first-le x b b' k pk here p)
  | inr there ↦ (k, Memᴰ.tail there, ek, pk)
]

-- Taking a candidate in covers it, and all that was covered.
keep_best-Covers :
    (c : Candidate) (best : List Candidate)
    → Covers (keep_best c best).0 c
      × ((x : Candidate) → Covers best x → Covers (keep_best c best).0 x)
unfolding keep_best
keep_best-Covers c [] =
    ((c, Memᴰ.head refl, refl, omega arith), λ x covered. absurd (Memᴰ.not-nil covered.1))
keep_best-Covers c (b ∷ best) = elim (Bool-cases (same_key (from_candidate b) (from_candidate c))) [
  | inl e ↦
      let same = (same_key_iff (from_candidate b) (from_candidate c)).0 e in
      elim (Bool-cases (ltb b.expected_profit c.expected_profit)) [
        | inl l ↦
            rw (e, l)
              (
                (c, Memᴰ.head refl, refl, omega arith),
                λ x. Covers-head b c best x same (ground arith),
              )
        | inr l ↦ rw (e, l) ((b, Memᴰ.head refl, same, ground arith), λ x covered. covered)
      ]
  | inr e ↦
      let (own, others) = keep_best-Covers c best in
      rw e (
        Covers-tail b _ c own,
        λ x covered. elim (Memᴰ.cases_cons covered.1) [
          | inl here ↦ (covered.0, Memᴰ.head here, covered.2, covered.3)
          | inr there ↦ Covers-tail b _ x (others x (covered.0, there, covered.2, covered.3))
        ],
      )
]

keep_best-mem :
    (c : Candidate) (best : List Candidate) {k : Candidate}
    → Memᴰ k (keep_best c best).0
    → Memᴰ k (c ∷ best)
unfolding keep_best
keep_best-mem c [] m = m
keep_best-mem c (b ∷ best) m = elim (Bool-cases (same_key (from_candidate b) (from_candidate c))) [
  | inl e ↦ elim (Bool-cases (ltb b.expected_profit c.expected_profit)) [
    | inl l ↦ elim (Memᴰ.cases_cons (rw (e, l) at m)) [
      | inl here ↦ Memᴰ.head here
      | inr there ↦ Memᴰ.tail (Memᴰ.tail there)
    ]
    | inr l ↦ Memᴰ.tail (rw (e, l) at m)
  ]
  | inr e ↦ elim (Memᴰ.cases_cons (rw e at m)) [
    | inl here ↦ Memᴰ.tail (Memᴰ.head here)
    | inr there ↦ elim (Memᴰ.cases_cons (keep_best-mem c best there)) [
      | inl here ↦ Memᴰ.head here
      | inr there' ↦ Memᴰ.tail (Memᴰ.tail there')
    ]
  ]
]

-- The candidates kept and those coalesced are as many as came in.
keep_best-length :
    (c : Candidate) (best : List Candidate)
    → length (keep_best c best).0 + (if (keep_best c best).1 then 1 else 0) ≡ length best + 1
unfolding keep_best
keep_best-length c [] = refl
keep_best-length c (b ∷ best) = elim (Bool-cases (same_key (from_candidate b) (from_candidate c))) [
  | inl e ↦ rw e refl
  | inr e ↦ rw e (omega (arith, keep_best-length c best))
]

coalesce-Covers :
    (cs best : List Candidate) (n : ℕ)
    → ((x : Candidate) → Memᴰ x cs → Covers (coalesce cs best n).0 x)
      × ((x : Candidate) → Covers best x → Covers (coalesce cs best n).0 x)
unfolding coalesce
coalesce-Covers [] best n = (λ x m. absurd (Memᴰ.not-nil m), λ x covered. covered)
coalesce-Covers (c ∷ cs) best n =
    let (own, others) = keep_best-Covers c best in
    let (later, still) =
      coalesce-Covers cs (keep_best c best).0 (if (keep_best c best).1 then n + 1 else n) in
    (
      λ x m. elim (Memᴰ.cases_cons m) [
        | inl here ↦ rw here (still c own)
        | inr there ↦ later x there
      ],
      λ x covered. still x (others x covered),
    )

coalesce-mem :
    (cs best : List Candidate) (n : ℕ) {k : Candidate}
    → Memᴰ k (coalesce cs best n).0
    → Memᴰ k cs ⊎ Memᴰ k best
unfolding coalesce
coalesce-mem [] best n m = inr m
coalesce-mem (c ∷ cs) best n m =
    elim (coalesce-mem cs (keep_best c best).0 (if (keep_best c best).1 then n + 1 else n) m) [
      | inl later ↦ inl (Memᴰ.tail later)
      | inr before ↦ elim (Memᴰ.cases_cons (keep_best-mem c best before)) [
        | inl here ↦ inl (Memᴰ.head here)
        | inr there ↦ inr there
      ]
    ]

coalesce-length :
    (cs best : List Candidate) (n : ℕ)
    → length (coalesce cs best n).0 + (coalesce cs best n).1 ≡ length cs + length best + n
unfolding coalesce
coalesce-length [] best n = omega arith
coalesce-length (c ∷ cs) best n =
    coalesce-length cs (keep_best c best).0 (if (keep_best c best).1 then n + 1 else n)
    ∙ counted (keep_best c best).1 (length (keep_best c best).0) (length cs) (length best) n
        (keep_best-length c best)

-- The keys of two candidates differ.
abbrev pub Apart : Candidate → Candidate → Type 0
Apart a b = from_candidate a ≢ from_candidate b

keep_best-Apart :
    (c : Candidate) (best : List Candidate)
    → Pairwise Apart best
    → Pairwise Apart (keep_best c best).0
unfolding keep_best
keep_best-Apart c [] h = (λ y m. absurd (Memᴰ.not-nil m), tt)
keep_best-Apart c (b ∷ best) (h, hs) =
    elim (Bool-cases (same_key (from_candidate b) (from_candidate c))) [
      | inl e ↦
          let same = (same_key_iff (from_candidate b) (from_candidate c)).0 e in
          elim (Bool-cases (ltb b.expected_profit c.expected_profit)) [
            | inl l ↦ rw (e, l) (λ y m equal. h y m (same ∙ equal), hs)
            | inr l ↦ rw (e, l) (h, hs)
          ]
      | inr e ↦ rw e (
        λ y m. elim (Memᴰ.cases_cons (keep_best-mem c best m)) [
          | inl here ↦ λ equal. cc (
            e,
            (same_key_iff (from_candidate b) (from_candidate c)).1 (equal ∙ ap from_candidate here),
          )
          | inr there ↦ h y there
        ],
        keep_best-Apart c best hs,
      )
    ]

coalesce-Apart :
    (cs best : List Candidate) (n : ℕ) → Pairwise Apart best → Pairwise Apart (coalesce cs best n).0
unfolding coalesce
coalesce-Apart [] best n h = h
coalesce-Apart (c ∷ cs) best n h =
    coalesce-Apart cs (keep_best c best).0 (if (keep_best c best).1 then n + 1 else n)
      (keep_best-Apart c best h)

-- Coalescing drops no key: each candidate that came in has one among the results with its key and at least its
-- profit. No two results have the same key. Each result is one that came in, the more profitable stands first, and the results and those
-- coalesced are together as many as came in.
pub coalesce_candidates-Covers :
    (candidates : List Candidate)
    → ((c : Candidate)
        → Memᴰ c candidates
        → Covers (coalesce_candidates_by_execution_key candidates).0 c)
      × ((k : Candidate)
          → Memᴰ k (coalesce_candidates_by_execution_key candidates).0
          → Memᴰ k candidates)
      × Pairwise Apart (coalesce_candidates_by_execution_key candidates).0
      × IsSorted by_profit (coalesce_candidates_by_execution_key candidates).0
      × (length (coalesce_candidates_by_execution_key candidates).0
            + (coalesce_candidates_by_execution_key candidates).1
          ≡ length candidates)
unfolding coalesce_candidates_by_execution_key
coalesce_candidates-Covers candidates =
    let (best, coalesced) = coalesce candidates [] 0 in
    (
      λ c m.
          let (k, mk, e, p) = (coalesce-Covers candidates [] 0).0 c m in
          (k, mem-sort by_profit best mk, e, p),
      λ k m. elim (coalesce-mem candidates [] 0 (sort-mem by_profit best m)) [
        | inl came ↦ came
        | inr none_there ↦ absurd (Memᴰ.not-nil none_there)
      ],
      sort-Pairwise by_profit Apart (λ a b apart equal. apart (sym equal)) best
          (coalesce-Apart candidates [] 0 tt),
      sort-by_profit best,
      omega (arith, length-sort by_profit best, coalesce-length candidates [] 0),
    )
