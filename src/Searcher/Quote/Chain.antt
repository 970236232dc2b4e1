-- ===== src/Searcher/Quote/Chain.antt =====
-- What a path's quote is made of.
use mathlib.Core.Path.{subst}
use dexmoney.Prelude.{
  map_err-eq-ok, append-nil, append_assoc, never, ℕ, ◌≤◌, ◌≡◌, refl, sym, ap, ◌∙◌, Bool, true,
  false, ◌&&◌, ◌||◌, some, ok_or-eq-ok, ok, err, List, [], ◌∷◌, ◌++◌, ltb, >>=-elim, ok_injective,
  Bool-cases, inl, inr, arith, map_err, if◌then◌else◌,
}
use dexmoney.Common.Pool.{PoolState}
use dexmoney.Common.Opportunity.{SwapStep, ArbPath, QuoteDiagnostics, QuoteStepDiagnostics}
use dexmoney.Searcher.Impact.{is_v3_style_variant, apply_quote_haircut}
use dexmoney.Searcher.Impact.Bounds.{haircut_bound}
use dexmoney.Searcher.Quote.{
  Leg, QuoteContext, QuoteSkip, failed_quote, cut, Progress, cut_leg, quote_step, quote_steps,
  known_pool, quote_variant, quote_path, all_known, conclude_quote, start_progress, add_leg,
  step_diagnostics,
}

-- The diagnostics of the legs from an amount to an amount along the steps: each leg starts with what the
-- one before paid, trades its step's tokens in its step's pool as the context knows it, notes what that
-- pool's quoter quotes for exactly this amount, pays that or what the haircut leaves of it, and had ticks
-- enough.
pub data Chain (context : QuoteContext)
    : ℕ → List SwapStep → List QuoteStepDiagnostics → ℕ → Type 0 where
  arrived : (a : ℕ) → Chain context a [] [] a
  leg :
      (a b : ℕ) (step : SwapStep) (steps : List SwapStep) (d : QuoteStepDiagnostics)
      (ds : List QuoteStepDiagnostics) (state : PoolState) (quoted : Leg)
      → d.amount_in ≡ a
      → d.token_in ≡ step.token_in
      → d.token_out ≡ step.token_out
      → context.pool_state step.pool ≡ some state
      → d.pool ≡ state.pool_id.address
      → quote_variant context state.variant state step a ≡ ok quoted
      → d.amount_out_raw ≡ quoted.result.amount_out
      → cut_leg context state quoted.result.amount_out ≡ ok d.amount_out
      → d.amount_out ≤ d.amount_out_raw
      → d.tick_range_exhausted ≡ false
      → Chain context d.amount_out steps ds b
      → Chain context a (step ∷ steps) (d ∷ ds) b

or_false : (a b : Bool) → (a || b) ≡ false → (a ≡ false) × (b ≡ false)
or_false true b h = cc
or_false false b h = (refl, h)

haircut_kept :
    (amount bps kept : ℕ)
    → map_err (λ e. failed_quote (cut e)) (apply_quote_haircut amount bps) ≡ ok kept
    → kept ≤ amount
haircut_kept amount bps kept h = (haircut_bound amount bps kept (map_err-eq-ok _ _ h)).1

-- Either result of the last test.
ended_fresh :
    {A : Type 0} (b : Bool) (skip : QuoteSkip) (a a' : A)
    → (if b then err skip else ok (some a)) ≡ ok (some a')
    → (b ≡ false) × (a ≡ a')
ended_fresh true skip a a' h = cc
ended_fresh false skip a a' h = (refl, cc)

-- What a quote that is concluded was.
record Concluded (progress : Progress) (out impact : ℕ) (d : QuoteDiagnostics) : Type 0 where
  fresh : progress.diagnostics.tick_range_exhausted ≡ false
  amount : progress.amount ≡ out
  steps : progress.diagnostics.steps ≡ d.steps

conclude_quote-Concluded :
    (progress : Progress) (out impact : ℕ) (d : QuoteDiagnostics)
    → conclude_quote progress ≡ ok (some (out, impact, d))
    → Concluded progress out impact d
unfolding conclude_quote
conclude_quote-Concluded progress out impact d h =
    elim (Bool-cases (ltb 0 progress.diagnostics.v3_pools_without_ticks)) [
      | inl e ↦ absurd (never (rw e at h))
      | inr e ↦
          let ended = ended_fresh progress.diagnostics.tick_range_exhausted _ _ _ (rw e at h) in
          record {
            fresh = ended.0;
            amount = ap (λ t. t.0) ended.1;
            steps = ap (λ t. t.2.steps) ended.1;
          }
    ]

module _ (context : QuoteContext) where
  cut_leg_bound : (state : PoolState) (raw out : ℕ) → cut_leg context state raw ≡ ok out → out ≤ raw
  unfolding cut_leg
  cut_leg_bound state raw out h =
      elim (Bool-cases (is_v3_style_variant state.variant && ltb 0 context.v3_quote_safety_bps)) [
        | inl e ↦ haircut_kept raw context.v3_quote_safety_bps out (rw e at h)
        | inr e ↦ omega (arith, ok_injective raw out (rw e at h))
      ]

  -- A step adds one leg.
  record Added (step : SwapStep) (before after : Progress) : Type 0 where
    d : QuoteStepDiagnostics
    state : PoolState
    quoted : Leg
    known : context.pool_state step.pool ≡ some state
    pool : d.pool ≡ state.pool_id.address
    quote : quote_variant context state.variant state step before.amount ≡ ok quoted
    raw : d.amount_out_raw ≡ quoted.result.amount_out
    paid : cut_leg context state quoted.result.amount_out ≡ ok d.amount_out
    steps : after.diagnostics.steps ≡ before.diagnostics.steps ++ (d ∷ [])
    exhausted :
        after.diagnostics.tick_range_exhausted
        ≡ (before.diagnostics.tick_range_exhausted || d.tick_range_exhausted)
    amount_in : d.amount_in ≡ before.amount
    amount_out : d.amount_out ≡ after.amount
    token_in : d.token_in ≡ step.token_in
    token_out : d.token_out ≡ step.token_out
    kept : d.amount_out ≤ d.amount_out_raw

  quote_step-Added :
      (step : SwapStep) (before after : Progress)
      → quote_step context step before ≡ ok after
      → Added step before after
  unfolding quote_step add_leg step_diagnostics known_pool
  quote_step-Added step before after h = >>=-elim (known_pool context step) _ h λ state known h1.
      >>=-elim (quote_variant context state.variant state step before.amount) _ h1
        λ quoted quote h2.
          >>=-elim (cut_leg context state quoted.result.amount_out) _ h2 λ out trimmed h3.
            subst (Added step before) (ok_injective _ after h3) (record {
              d = step_diagnostics before.step_index state step before.amount quoted out;
              state = state;
              quoted = quoted;
              known = ok_or-eq-ok (context.pool_state step.pool) _ known;
              pool = refl;
              quote = quote;
              raw = refl;
              paid = trimmed;
              steps = refl;
              exhausted = refl;
              amount_in = refl;
              amount_out = refl;
              token_in = refl;
              token_out = refl;
              kept = cut_leg_bound state quoted.result.amount_out out trimmed;
            })

  -- What the rest of the path adds to a quote that no leg of it exhausts.
  record Followed (steps : List SwapStep) (before after : Progress) : Type 0 where
    ds : List QuoteStepDiagnostics
    all : after.diagnostics.steps ≡ before.diagnostics.steps ++ ds
    chain : Chain context before.amount steps ds after.amount
    fresh : before.diagnostics.tick_range_exhausted ≡ false

  follow-Added :
      (step : SwapStep) (steps : List SwapStep) (before mid after : Progress)
      → Added step before mid
      → Followed steps mid after
      → Followed (step ∷ steps) before after
  follow-Added step steps before mid after added rest =
      let d = added.d in
      let none_out =
        or_false before.diagnostics.tick_range_exhausted d.tick_range_exhausted
          (sym added.exhausted ∙ rest.fresh) in
      record {
        ds = d ∷ rest.ds;
        all =
            rest.all
            ∙ ap (λ l. l ++ rest.ds) added.steps
            ∙ append_assoc before.diagnostics.steps (d ∷ []) rest.ds;
        chain =
            leg before.amount after.amount step steps d rest.ds added.state added.quoted
              added.amount_in added.token_in added.token_out added.known added.pool added.quote
              added.raw added.paid added.kept none_out.1
              (subst (λ a. Chain context a steps rest.ds after.amount) (sym added.amount_out)
                rest.chain);
        fresh = none_out.0;
      }

  quote_steps-Followed :
      (steps : List SwapStep) (before after : Progress)
      → quote_steps context steps before ≡ ok after
      → after.diagnostics.tick_range_exhausted ≡ false
      → Followed steps before after
  unfolding quote_steps
  quote_steps-Followed [] before after h fresh =
      subst (λ p. p.diagnostics.tick_range_exhausted ≡ false → Followed [] before p)
        (ok_injective before after h)
        (λ f. record {
          ds = [];
          all = append-nil before.diagnostics.steps;
          chain = arrived before.amount;
          fresh = f;
        })
        fresh
  quote_steps-Followed (step ∷ steps) before after h fresh =
      >>=-elim (quote_step context step before) _ h λ mid h1 h2.
        follow-Added step steps before mid after (quote_step-Added step before mid h1)
          (quote_steps-Followed steps mid after h2 fresh)

  -- A quoted path is a chain of legs from the amount put in to the amount quoted, one for each of the path's
  -- steps and in their order: each leg starts with what the one before paid, trades its step's tokens in
  -- its step's pool, notes what that pool's quoter quotes for this amount, pays that or what the haircut
  -- leaves of it, and did not run out of known ticks.
  pub quote_path-Chain :
      (path : ArbPath) (amount_in out impact : ℕ) (d : QuoteDiagnostics)
      → quote_path context path amount_in ≡ ok (some (out, impact, d))
      → Chain context amount_in path.steps d.steps out
  unfolding quote_path conclude_quote start_progress
  quote_path-Chain path amount_in out impact d h =
      >>=-elim (all_known context path.steps) _ h λ _ _ h1.
        >>=-elim (quote_steps context path.steps (start_progress amount_in)) _ h1 λ progress h2 h3.
          let c = conclude_quote-Concluded progress out impact d h3 in
          let f = quote_steps-Followed path.steps (start_progress amount_in) progress h2 c.fresh in
          subst (λ l. Chain context amount_in path.steps l out) (sym f.all ∙ c.steps)
            (subst (λ a. Chain context amount_in path.steps f.ds a) c.amount f.chain)
