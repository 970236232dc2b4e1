-- ===== src/Execution/Breaker/Halting.antt =====
-- When the circuit breaker has halted.
use mathlib.Core.Path.{subst}
use native.Mathlib.Nat.{div-lt_iff_lt-mul}
use dexmoney.Prelude.{
  ℕ, zero, suc, ◌+◌, ◌*◌, ◌/◌, ◌^◌, ◌≤◌, ◌<◌, Bool, true, false, List, [], ◌∷◌, ltb, ◌≡◌, ◌↔◌, ◌⊎◌,
  refl, sym, inl, inr, if◌then◌else◌, length, take, Bool-cases, arith,
}
use dexmoney.Execution.Breaker.{
  ExecutionCircuitBreaker, new, count_receipt, success_rate_bps, judge, observe_arb_receipt,
  observe_all, is_halted,
}

-- A receipt's share of the successes.
abbrev pub weight : Bool → ℕ
weight success = if success then 1 else 0

abbrev pub successes : List Bool → ℕ
successes [] = 0
successes (x ∷ receipts) = weight x + successes receipts

-- A share of successes below the rate, of as many receipts as are asked for, in products.
abbrev TooFew : ℕ → ℕ → ℕ → ℕ → Type 0
TooFew rate min_txs receipts count = (min_txs ≤ receipts) × (count * 10_000 < rate * receipts)

success_rate_bps_lem :
    (b : ExecutionCircuitBreaker)
    → 0 < b.arb_receipts
    → b.arb_successes * 10_000 < 2 ^ 64
    → success_rate_bps b ≡ b.arb_successes * 10_000 / b.arb_receipts
unfolding success_rate_bps
success_rate_bps_lem b some_there fits = ground arith

judge-halted_iff :
    (rate : ℕ) (b : ExecutionCircuitBreaker)
    → 0 < b.arb_receipts
    → b.arb_successes * 10_000 < 2 ^ 64
    → ((judge rate b).halted ≡ true)
      ↔ (b.halted ≡ true) ⊎ TooFew rate b.min_txs b.arb_receipts b.arb_successes
unfolding judge
judge-halted_iff rate b some_there fits =
    let rate_is = success_rate_bps_lem b some_there fits in
    let low : (b.arb_successes * 10_000 / b.arb_receipts < rate)
        ↔ (b.arb_successes * 10_000 < rate * b.arb_receipts) =
      div-lt_iff_lt-mul some_there in
    elim (Bool-cases (ltb b.arb_receipts b.min_txs)) [
      | inl few ↦ rw few (
        λ h. inl h,
        λ h. elim h [ inl before ↦ before | inr (many, less) ↦ absurd (ground arith) ],
      )
      | inr few ↦ elim (Bool-cases (ltb (success_rate_bps b) rate)) [
        | inl l ↦ rw (few, l) (λ h. inr (ground arith, low.0 (ground arith)), λ h. refl)
        | inr l ↦
            rw (few, l)
              (
                λ h. inl h,
                λ h. elim h [
                  | inl before ↦ before
                  | inr (many, less) ↦ let less' = low.1 less in absurd (ground arith)
                ],
              )
      ]
    ]

-- Some number of the receipts, with those counted before, are too few successes.
abbrev Trips : ℕ → ℕ → ℕ → ℕ → List Bool → Type 0
Trips rate min_txs before count receipts =
    (n : ℕ) × (0 < n)
    × (n ≤ length receipts)
    × TooFew rate min_txs (before + n) (count + successes (take n receipts))

TooFew-along :
    (rate min_txs : ℕ) {r r' s s' : ℕ}
    → r ≡ r'
    → s ≡ s'
    → TooFew rate min_txs r s
    → TooFew rate min_txs r' s'
TooFew-along rate min_txs er es (many, less) = (rw (sym er) many, rw (sym es, sym er) less)

Trips-cons_iff :
    (rate min_txs r s : ℕ) (x : Bool) (xs : List Bool)
    → Trips rate min_txs r s (x ∷ xs)
      ↔ TooFew rate min_txs (r + 1) (s + weight x) ⊎ Trips rate min_txs (r + 1) (s + weight x) xs
Trips-cons_iff rate min_txs r s x xs = (
  λ (n, some_there, most, few). split n some_there most few,
  λ h. elim h [
    | inl few ↦ (
      1,
      omega arith,
      omega arith,
      TooFew-along rate min_txs refl (sym (none_more (weight x))) few,
    )
    | inr (n, some_there, most, few) ↦ (
      suc n,
      omega arith,
      omega arith,
      TooFew-along rate min_txs (omega arith) (sym (first n)) few,
    )
  ],
)
  where
    first : (n : ℕ) → s + successes (x ∷ take n xs) ≡ s + weight x + successes (take n xs)
    first n = omega arith

    none_more : (w : ℕ) → s + (w + 0) ≡ s + w
    none_more w = omega arith

    split :
        (n : ℕ)
        → 0 < n
        → n ≤ length (x ∷ xs)
        → TooFew rate min_txs (r + n) (s + successes (take n (x ∷ xs)))
        → TooFew rate min_txs (r + 1) (s + weight x) ⊎ Trips rate min_txs (r + 1) (s + weight x) xs
    split zero some_there most few = absurd (omega arith)
    split (suc zero) some_there most few =
        inl (TooFew-along rate min_txs refl (none_more (weight x)) few)
    split (suc (suc n)) some_there most few = inr (
      suc n,
      omega arith,
      omega arith,
      TooFew-along rate min_txs (omega arith) (first (suc n)) few,
    )

judge-frame :
    (rate : ℕ) (b : ExecutionCircuitBreaker)
    → ((judge rate b).min_txs ≡ b.min_txs)
      × ((judge rate b).arb_receipts ≡ b.arb_receipts)
      × ((judge rate b).arb_successes ≡ b.arb_successes)
unfolding judge
judge-frame rate b = elim (Bool-cases (ltb b.arb_receipts b.min_txs)) [
  | inl few ↦ rw few (refl, refl, refl)
  | inr few ↦ elim (Bool-cases (ltb (success_rate_bps b) rate)) [
    | inl l ↦ rw (few, l) (refl, refl, refl)
    | inr l ↦ rw (few, l) (refl, refl, refl)
  ]
]

count_receipt_lem :
    (x : Bool) (b : ExecutionCircuitBreaker)
    → b.arb_successes ≤ b.arb_receipts
    → b.arb_receipts + 1 < 2 ^ 64
    → count_receipt x b
      ≡ record b { arb_receipts = b.arb_receipts + 1; arb_successes = b.arb_successes + weight x }
unfolding count_receipt
count_receipt_lem true b le fits = ground arith
count_receipt_lem false b le fits = ground arith

weight_le : (x : Bool) → weight x ≤ 1
weight_le true = omega arith
weight_le false = omega arith

-- One receipt: the counters are exact, and the breaker halts where there are now too few successes.
observed :
    (rate : ℕ) (x : Bool) (b : ExecutionCircuitBreaker)
    → b.arb_successes ≤ b.arb_receipts
    → (b.arb_receipts + 1) * 10_000 < 2 ^ 64
    → ((observe_arb_receipt rate x b).min_txs ≡ b.min_txs)
      × ((observe_arb_receipt rate x b).arb_receipts ≡ b.arb_receipts + 1)
      × ((observe_arb_receipt rate x b).arb_successes ≡ b.arb_successes + weight x)
      × (((observe_arb_receipt rate x b).halted ≡ true)
          ↔ (b.halted ≡ true)
            ⊎ TooFew rate b.min_txs (b.arb_receipts + 1) (b.arb_successes + weight x))
unfolding observe_arb_receipt
observed rate x b le fits =
    let b' : ExecutionCircuitBreaker = record b {
      arb_receipts = b.arb_receipts + 1;
      arb_successes = b.arb_successes + weight x;
    } in
    subst
      (λ c.
        ((judge rate c).min_txs ≡ b.min_txs)
        × ((judge rate c).arb_receipts ≡ b.arb_receipts + 1)
        × ((judge rate c).arb_successes ≡ b.arb_successes + weight x)
        × (((judge rate c).halted ≡ true)
            ↔ (b.halted ≡ true)
              ⊎ TooFew rate b.min_txs (b.arb_receipts + 1) (b.arb_successes + weight x)))
      (sym (count_receipt_lem x b le (omega arith)))
      (
        (judge-frame rate b').0,
        (judge-frame rate b').1,
        (judge-frame rate b').2,
        judge-halted_iff rate b' (omega arith) (fits_after (weight x) (weight_le x)),
      )
  where
    fits_after : (w : ℕ) → w ≤ 1 → (b.arb_successes + w) * 10_000 < 2 ^ 64
    fits_after w h = omega arith

observe_all-halted :
    (rate : ℕ) (receipts : List Bool) (b : ExecutionCircuitBreaker)
    → b.arb_successes ≤ b.arb_receipts
    → (b.arb_receipts + length receipts) * 10_000 < 2 ^ 64
    → ((observe_all rate receipts b).halted ≡ true)
      ↔ (b.halted ≡ true) ⊎ Trips rate b.min_txs b.arb_receipts b.arb_successes receipts
unfolding observe_all
observe_all-halted rate [] b le fits = (
  λ h. inl h,
  λ h. elim h [ inl before ↦ before | inr (n, some_there, most, few) ↦ absurd (omega arith) ],
)
observe_all-halted rate (x ∷ xs) b le fits =
    let (same_min, one_more, counted, halts) = observed rate x b le (omega arith) in
    let later =
      observe_all-halted rate xs (observe_arb_receipt rate x b)
        (omega (arith, weight_le x, one_more, counted)) (omega (arith, one_more)) in
    let rest = rw (same_min, one_more, counted) at later in
    let cons = Trips-cons_iff rate b.min_txs b.arb_receipts b.arb_successes x xs in
    (
      λ h. elim (rest.0 h) [
        | inl now ↦ elim (halts.0 now) [
          | inl before ↦ inl before
          | inr few ↦ inr (cons.1 (inl few))
        ]
        | inr trips ↦ inr (cons.1 (inr trips))
      ],
      λ h. rest.1 (elim h [
        | inl before ↦ inl (halts.1 (inl before))
        | inr trips ↦ elim (cons.0 trips) [
          | inl few ↦ inl (halts.1 (inr few))
          | inr trips' ↦ inr trips'
        ]
      ]),
    )

-- Over fewer than 2 ^ 64 / 10,000 receipts a new breaker is halted exactly where, after one or more of them and
-- as many as are asked for, the successes among those were below the configured share, whatever came later.
pub observe_all-halted_iff :
    (min_txs rate : ℕ) (receipts : List Bool)
    → length receipts * 10_000 < 2 ^ 64
    → (is_halted (observe_all rate receipts (new min_txs)) ≡ true)
      ↔ (n : ℕ) × (0 < n)
        × (n ≤ length receipts)
        × (min_txs ≤ n)
        × (successes (take n receipts) * 10_000 < rate * n)
unfolding is_halted new
observe_all-halted_iff min_txs rate receipts fits =
    let (there, back) =
      observe_all-halted rate receipts (new min_txs) (omega arith) (omega arith) in
    (
      λ h. elim (there h) [
        | inl halted ↦ absurd (ground arith)
        | inr (n, some_there, most, few) ↦
            let (many, less) = TooFew-along rate min_txs (omega arith) (omega arith) few in
            (n, some_there, most, many, less)
      ],
      λ (n, some_there, most, many, less). back (
          inr (
            n,
            some_there,
            most,
            TooFew-along rate min_txs (omega arith) (omega arith) (many, less),
          )),
    )
