-- ===== src/Searcher/Risk/Gate.antt =====
-- What the risk gate lets through.
use Prim.Native.String.{String}
use mathlib.Core.List.{Memᴰ}
use mathlib.Core.List.Memᴰ
use text.Mathlib.Text.{◌==◌ as ◌===◌}
use text.Mathlib.TextEquality.{eq_iff}
use dexmoney.Prelude.{
  ℕ, ◌≤◌, ◌≡◌, ◌≢◌, ◌↔◌, ◌⊎◌, Bool, true, false, ◌&&◌, not, ok, List, [], ◌∷◌, any, ltb, Bool-cases,
  inl, inr, never, refl, sym, ap, arith,
}
use dexmoney.Common.Pool.{Address}
use dexmoney.Common.Opportunity.{Candidate, SwapStep}
use dexmoney.Dex.V3.{is_empty}
use dexmoney.Searcher.Risk.{required_profit, validate_candidate}

-- On the whitelist, unless that is empty.
abbrev pub IsListed : List String → String → Type 0
IsListed whitelist name = (whitelist ≡ []) ⊎ Memᴰ name whitelist

abbrev pub AllAvailable : (Address → Bool) → List SwapStep → Type 0
AllAvailable available_pools steps =
    (step : SwapStep) → Memᴰ step steps → available_pools step.pool ≡ true

any-name_iff :
    (name : String) (names : List String) → (any (λ n. n === name) names ≡ true) ↔ Memᴰ name names
any-name_iff name [] = (λ h. cc, λ m. absurd (Memᴰ.not-nil m))
any-name_iff name (n ∷ names) = elim (Bool-cases (n === name)) [
  | inl e ↦ rw e (λ h. Memᴰ.head (sym ((eq_iff n name).0 e)), λ m. refl)
  | inr e ↦ rw e (
    λ h. Memᴰ.tail ((any-name_iff name names).0 h),
    λ m. elim (Memᴰ.cases_cons m) [
      | inl same ↦ cc (e, (eq_iff n name).1 (sym same))
      | inr rest ↦ (any-name_iff name names).1 rest
    ],
  )
]

double_no : (b : Bool) → not b ≡ false → b ≡ true
double_no true h = refl
double_no false h = cc

whitelist_iff :
    (name : String) (whitelist : List String)
    → ((not (is_empty whitelist) && not (any (λ n. n === name) whitelist)) ≡ false)
      ↔ IsListed whitelist name
whitelist_iff name [] = (λ h. inl refl, λ h. refl)
whitelist_iff name (n ∷ names) =
    let (found, finds) = any-name_iff name (n ∷ names) in
    (
      λ h. inr (found (double_no _ h)),
      λ h. elim h [ inl none_listed ↦ cc | inr m ↦ ap not (finds m) ],
    )

missing_iff :
    (available_pools : Address → Bool) (steps : List SwapStep)
    → (any (λ (step : SwapStep). not (available_pools step.pool)) steps ≡ false)
      ↔ AllAvailable available_pools steps
missing_iff available_pools [] = (λ h step m. absurd (Memᴰ.not-nil m), λ h. refl)
missing_iff available_pools (step ∷ steps) = elim (Bool-cases (available_pools step.pool)) [
  | inl e ↦ rw e (
    λ h other m. elim (Memᴰ.cases_cons m) [
      | inl here ↦ rw here e
      | inr rest ↦ (missing_iff available_pools steps).0 h other rest
    ],
    λ h. (missing_iff available_pools steps).1 (λ other m. h other (Memᴰ.tail m)),
  )
  | inr e ↦ (λ h. cc (rw e at h), λ h. cc (e, h step (Memᴰ.head refl)))
]

required_iff :
    (c : Candidate) (min_expected_profit : ℕ)
    → (ltb c.expected_profit (required_profit c min_expected_profit) ≡ false) ↔ (
        (c.min_profit ≢ 0 → c.min_profit ≤ c.expected_profit)
        × (c.min_profit ≡ 0 → min_expected_profit ≤ c.expected_profit))
unfolding required_profit
required_iff c min_expected_profit = ground arith

module _ (c : Candidate) (available_pools : Address → Bool)
    (min_expected_profit max_price_impact_bps : ℕ) (whitelist : List String) where
  -- What the gate is to ask of a candidate: its own least profit, or the general one where it names none; a
  -- bounded impact; a listed path; and every pool of the path at hand.
  pub record Passes : Type 0 where
    pub own : c.min_profit ≢ 0 → c.min_profit ≤ c.expected_profit
    pub general : c.min_profit ≡ 0 → min_expected_profit ≤ c.expected_profit
    pub impact : c.price_impact_bps ≤ max_price_impact_bps
    pub listed : IsListed whitelist c.path.name
    pub pools : AllAvailable available_pools c.path.steps

  passes_of :
      validate_candidate c available_pools min_expected_profit max_price_impact_bps whitelist
        ≡ ok tt
      → Passes
  unfolding validate_candidate
  passes_of h = elim (Bool-cases (ltb c.expected_profit (required_profit c min_expected_profit))) [
    | inl e ↦ absurd (never (rw e at h))
    | inr e1 ↦ elim (Bool-cases (ltb max_price_impact_bps c.price_impact_bps)) [
      | inl e ↦ absurd (never (rw (e1, e) at h))
      | inr e2 ↦
          elim (Bool-cases
            (not (is_empty whitelist) && not (any (λ name. name === c.path.name) whitelist))) [
              | inl e ↦ absurd (never (rw (e1, e2, e) at h))
              | inr e3 ↦
                  elim (Bool-cases
                    (any (λ (step : SwapStep). not (available_pools step.pool)) c.path.steps)) [
                      | inl e ↦ absurd (never (rw (e1, e2, e3, e) at h))
                      | inr e4 ↦
                          let (own, general) = (required_iff c min_expected_profit).0 e1 in
                          record {
                            own = own;
                            general = general;
                            impact = ground arith;
                            listed = (whitelist_iff c.path.name whitelist).0 e3;
                            pools = (missing_iff available_pools c.path.steps).0 e4;
                          }
                    ]
            ]
    ]
  ]

  of_passes :
      Passes
      → validate_candidate c available_pools min_expected_profit max_price_impact_bps whitelist
        ≡ ok tt
  unfolding validate_candidate
  of_passes p =
      let impact = p.impact in
      let e1 = (required_iff c min_expected_profit).1 (p.own, p.general) in
      let e2 : ltb max_price_impact_bps c.price_impact_bps ≡ false = ground arith in
      let e3 = (whitelist_iff c.path.name whitelist).1 p.listed in
      let e4 = (missing_iff available_pools c.path.steps).1 p.pools in rw (e1, e2, e3, e4) refl

  -- The gate accepts a candidate exactly where its profit is at least the one it asks for itself, or the general
  -- one if it asks for none, its impact is within the limit, the whitelist is empty or has its path, and every
  -- pool of the path is available.
  pub validate_candidate-Passes :
      (validate_candidate c available_pools min_expected_profit max_price_impact_bps whitelist
        ≡ ok tt)
      ↔ Passes
  validate_candidate-Passes = (passes_of, of_passes)
