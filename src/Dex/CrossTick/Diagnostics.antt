-- ===== src/Dex/CrossTick/Diagnostics.antt =====
-- The counters that a cross-tick swap reports.
use dexmoney.Prelude.{
  ℕ, ◌+◌, ◌≤◌, ◌≡◌, ◌⊎◌, inl, inr, Bool, true, List, [], ◌∷◌, length, ok, arith, >>=-elim, ok_or,
  ◌==◌, ◌||◌, if◌then◌else◌, Bool-cases,
}
use dexmoney.Word.{checked_add, u256_max}
use dexmoney.Prelude.Int.{ℤ}
use dexmoney.Common.Errors.{quote}
use dexmoney.Common.Pool.{TickState}
use dexmoney.Dex.SwapStep.{compute_swap_step}
use dexmoney.Dex.Tick.{sqrt_ratio_at_tick}
use dexmoney.Dex.CrossTick.{
  V3QuoteDiagnostics, Walk, Round, going, returned, apply_liquidity_delta, net_delta, jump_round,
  after_step, swap_round, tick_round, walk_ticks, finish, conclude, ticks_ahead, start_walk,
  simulate,
}

-- One tick more is used, and at most one more is crossed.
abbrev OneMore : V3QuoteDiagnostics → V3QuoteDiagnostics → Type 0
OneMore d d' =
    (d'.ticks_used ≡ d.ticks_used + 1)
    × (d'.crossed_ticks ≤ d.crossed_ticks + 1)
    × (d'.tick_range_exhausted ≡ d.tick_range_exhausted)

abbrev RoundCounts : V3QuoteDiagnostics → Round → Type 0
RoundCounts d (going w) = OneMore d w.diagnostics
RoundCounts d (returned _ d') = OneMore d d'

module _ (zero_for_one : Bool) (fee : ℕ) where
  tick_round_counts :
      (tick : TickState) (w : Walk) {r : Round}
      → tick_round zero_for_one fee tick w ≡ ok r
      → RoundCounts w.diagnostics r
  unfolding tick_round jump_round swap_round after_step
  tick_round_counts tick w {r} h = >>=-elim (sqrt_ratio_at_tick tick.tick) _ h λ target _ h1.
      elim (Bool-cases (w.liquidity == 0)) [
        | inl empty ↦
            >>=-elim (apply_liquidity_delta w.liquidity (net_delta zero_for_one tick)) _
              (rw empty at h1) λ l _ e. ground arith
        | inr active ↦
            >>=-elim
              (compute_swap_step w.sqrt_price target w.liquidity w.amount_remaining fee
                zero_for_one)
              _ (rw active at h1)
              λ step _ h2.
                >>=-elim
                  (ok_or (checked_add step.amount_in step.fee_amount)
                    (quote "step amount overflow"))
                  _ h2
                  λ used _ h3.
                    >>=-elim
                      (ok_or (checked_add w.amount_out step.amount_out)
                        (quote "amount_out overflow"))
                      _ h3
                      λ out _ h4. elim (Bool-cases (step.sqrt_next == target)) [
                        | inl hit ↦
                            >>=-elim
                              (apply_liquidity_delta w.liquidity (net_delta zero_for_one tick)) _
                              (rw hit at h4) λ l _ e. ground arith
                        | inr short ↦ let e = rw short at h4 in ground arith
                      ]
      ]

  -- After the loop either every tick was used, or nothing remained, or the function returned.
  abbrev Counts : List TickState → V3QuoteDiagnostics → Round → Type 0
  Counts ts d (going w) =
      (d.ticks_used ≤ w.diagnostics.ticks_used)
      × (w.diagnostics.ticks_used ≤ d.ticks_used + length ts)
      × (w.diagnostics.crossed_ticks + d.ticks_used ≤ w.diagnostics.ticks_used + d.crossed_ticks)
      × (w.diagnostics.tick_range_exhausted ≡ d.tick_range_exhausted)
      × ((w.amount_remaining ≡ 0) ⊎ (w.diagnostics.ticks_used ≡ d.ticks_used + length ts))
  Counts ts d (returned _ d') =
      (d.ticks_used ≤ d'.ticks_used)
      × (d'.ticks_used ≤ d.ticks_used + length ts)
      × (d'.crossed_ticks + d.ticks_used ≤ d'.ticks_used + d.crossed_ticks)
      × (d'.tick_range_exhausted ≡ d.tick_range_exhausted)

  Counts-next :
      (ts : List TickState) (t : TickState) (d d' : V3QuoteDiagnostics) (r : Round)
      → OneMore d d'
      → Counts ts d' r
      → Counts (t ∷ ts) d r
  Counts-next ts t d d' (going w) one c = ground arith
  Counts-next ts t d d' (returned out e) one c = ground arith

  -- The loop from the result of a round on.
  after-RoundCounts :
      (ts : List TickState) (t : TickState) (w : Walk) (first : Round) {r : Round}
      → RoundCounts w.diagnostics first
      → ((w' : Walk) → walk_ticks zero_for_one fee ts w' ≡ ok r → Counts ts w'.diagnostics r)
      → elim first [
        | going w' ↦ walk_ticks zero_for_one fee ts w'
        | returned out d ↦ ok (returned out d)
      ]
        ≡ ok r
      → Counts (t ∷ ts) w.diagnostics r
  after-RoundCounts ts t w (going w') {r} one rest h =
      Counts-next ts t w.diagnostics w'.diagnostics r one (rest w' h)
  after-RoundCounts ts t w (returned out d) one rest h = ground arith

  walk_ticks-Counts :
      (ts : List TickState) (w : Walk) {r : Round}
      → walk_ticks zero_for_one fee ts w ≡ ok r
      → Counts ts w.diagnostics r
  unfolding walk_ticks
  walk_ticks-Counts [] w h = ground arith
  walk_ticks-Counts (t ∷ ts) w h = elim (Bool-cases (w.amount_remaining == 0)) [
    | inl spent ↦ let e = rw spent at h in ground arith
    | inr busy ↦ >>=-elim (tick_round zero_for_one fee t w) _ (rw busy at h) λ first e k.
        after-RoundCounts ts t w first (tick_round_counts t w e) (λ w'. walk_ticks-Counts ts w') k
  ]

  conclude-Counts :
      (ts : List TickState) (amount price liquidity : ℕ) (r : Round) {out : ℕ}
      {d : V3QuoteDiagnostics}
      → Counts ts (start_walk amount price liquidity).diagnostics r
      → conclude zero_for_one fee r ≡ ok (out, d)
      → (d.crossed_ticks ≤ d.ticks_used)
        × (d.ticks_used ≤ length ts)
        × (d.tick_range_exhausted ≡ true → d.ticks_used ≡ length ts)
  unfolding conclude finish
  conclude-Counts ts amount price liquidity (returned out' d') c h = ground arith
  conclude-Counts ts amount price liquidity (going w) c h =
      elim (Bool-cases (w.amount_remaining == 0 || w.liquidity == 0)) [
        | inl over ↦ let e = rw over at h in ground arith
        | inr beyond ↦
            >>=-elim
              (compute_swap_step w.sqrt_price (if zero_for_one then 1 else u256_max) w.liquidity
                w.amount_remaining fee zero_for_one)
              _ (rw beyond at h)
              λ step _ h1.
                >>=-elim
                  (ok_or (checked_add w.amount_out step.amount_out) (quote "amount_out overflow")) _
                  h1 λ sum _ e. ground arith
      ]

  -- A simulated swap that succeeds crosses no more ticks than it uses and uses no more than lie ahead; it reports an
  -- exhausted range only after it has used all of them.
  pub simulate_counts :
      (amount price liquidity : ℕ) (current_tick : ℤ) (ticks : List TickState) {out : ℕ}
      {d : V3QuoteDiagnostics}
      → simulate zero_for_one amount price liquidity current_tick ticks fee ≡ ok (out, d)
      → let ahead = length (ticks_ahead zero_for_one current_tick ticks) in
        (d.crossed_ticks ≤ d.ticks_used)
        × (d.ticks_used ≤ ahead)
        × (d.tick_range_exhausted ≡ true → d.ticks_used ≡ ahead)
  unfolding simulate
  simulate_counts amount price liquidity current_tick ticks h =
      let ts = ticks_ahead zero_for_one current_tick ticks in
      >>=-elim (walk_ticks zero_for_one fee ts (start_walk amount price liquidity)) _ h λ r e k.
        conclude-Counts ts amount price liquidity r
          (walk_ticks-Counts ts (start_walk amount price liquidity) e) k
