-- ===== src/Dex/CrossTick/Progress.antt =====
-- The price and the amounts along a walk over the ticks.
use mathlib.Core.Path.{subst}
use native.Mathlib.Nat.{le_refl}
use dexmoney.Prelude.{
  ℕ, ◌+◌, ◌≤◌, ◌<◌, ◌≡◌, refl, inl, inr, Bool, true, false, List, [], ◌∷◌, ok, arith, >>=-elim,
  ok_injective, sym, ok_or, ◌==◌, Bool-cases,
}
use dexmoney.Word.{checked_add}
use dexmoney.Common.Errors.{quote}
use dexmoney.Common.Pool.{TickState}
use dexmoney.Dex.SwapStep.{SwapStepResult, compute_swap_step}
use dexmoney.Dex.SwapStep.Bounds.{Uses, sell0_step, sell1_step}
use dexmoney.Dex.Tick.{sqrt_ratio_at_tick}
use dexmoney.Dex.CrossTick.{
  Walk, Round, going, returned, apply_liquidity_delta, net_delta, jump_round, after_step,
  swap_round, tick_round, walk_ticks,
}

-- `target` lies where the price of the swap goes.
abbrev pub Ahead : Bool → ℕ → ℕ → Type 0
Ahead true target price = target ≤ price
Ahead false target price = price ≤ target

Ahead-refl : (b : Bool) (p : ℕ) → Ahead b p p
Ahead-refl true p = le_refl p
Ahead-refl false p = le_refl p

Ahead-trans : (b : Bool) (p q r : ℕ) → Ahead b p q → Ahead b q r → Ahead b p r
Ahead-trans true p q r h k = omega arith
Ahead-trans false p q r h k = omega arith

pub swap_step_progress :
    (zero_for_one : Bool) (price target liquidity remaining fee : ℕ) {step : SwapStepResult}
    → 0 < liquidity
    → Ahead zero_for_one target price
    → compute_swap_step price target liquidity remaining fee zero_for_one ≡ ok step
    → Ahead zero_for_one target step.sqrt_next
      × Ahead zero_for_one step.sqrt_next price
      × Uses remaining target step
swap_step_progress true price target liquidity remaining fee active ahead h =
    sell0_step price target liquidity remaining fee active ahead h
swap_step_progress false price target liquidity remaining fee active ahead h =
    let (a, b, c) = sell1_step price target liquidity remaining fee active ahead h in (b, a, c)

-- What a round has done with the input and the output of its step.
abbrev pub Accounts : Walk → ℕ → SwapStepResult → Round → Type 0
Accounts w target step (going w') =
    (w.amount_remaining ≡ w'.amount_remaining + (step.amount_in + step.fee_amount))
    × (w'.amount_out ≡ w.amount_out + step.amount_out)
    × (w'.sqrt_price ≡ target)
Accounts w target step (returned out _) =
    (w.amount_remaining ≡ step.amount_in + step.fee_amount) × (out ≡ w.amount_out + step.amount_out)

module _ (zero_for_one : Bool) (fee : ℕ) where
  after_step-Accounts :
      (tick : TickState) (target : ℕ) (w : Walk) (step : SwapStepResult) {r : Round}
      → Uses w.amount_remaining target step
      → after_step zero_for_one tick target w step ≡ ok r
      → Accounts w target step r
  unfolding after_step
  after_step-Accounts tick target w step {r} uses h =
      >>=-elim (ok_or (checked_add step.amount_in step.fee_amount) (quote "step amount overflow")) _
        h
        λ used u h1.
          >>=-elim (ok_or (checked_add w.amount_out step.amount_out) (quote "amount_out overflow"))
            _ h1
            λ out o h2. elim (Bool-cases (step.sqrt_next == target)) [
              | inl hit ↦
                  >>=-elim (apply_liquidity_delta w.liquidity (net_delta zero_for_one tick)) _
                    (rw hit at h2) λ l _ e. ground arith
              | inr short ↦ let e = rw short at h2 in ground arith
            ]

  -- In a range with liquidity, and with the tick's price ahead: a round that goes on takes its step's
  -- input and fee from what remains, with nothing lost to saturation, and stands at the tick's price;
  -- a round that ends the swap has used all that remained. Both add the step's output.
  pub swap_round-Accounts :
      (tick : TickState) (target : ℕ) (w : Walk) {r : Round}
      → 0 < w.liquidity
      → Ahead zero_for_one target w.sqrt_price
      → swap_round zero_for_one fee tick target w ≡ ok r
      → (step : SwapStepResult) × (compute_swap_step w.sqrt_price target w.liquidity
            w.amount_remaining fee zero_for_one
          ≡ ok step)
        × Accounts w target step r
  unfolding swap_round
  swap_round-Accounts tick target w active ahead h =
      >>=-elim
        (compute_swap_step w.sqrt_price target w.liquidity w.amount_remaining fee zero_for_one) _ h
        λ step e k.
          let (_, _, uses) =
            swap_step_progress zero_for_one w.sqrt_price target w.liquidity w.amount_remaining fee
              active ahead e in
          (step, e, after_step-Accounts tick target w step uses k)

  -- The prices of the ticks lie ahead of one another, the first ahead of `price`.
  abbrev pub Lined : ℕ → List TickState → Type 0
  Lined price [] = Unit
  Lined price (t ∷ ts) =
      (p : ℕ) → sqrt_ratio_at_tick t.tick ≡ ok p → Ahead zero_for_one p price × Lined p ts

  -- How far a walk has come.
  abbrev pub Came : Walk → Round → Type 0
  Came w (going w') =
      Ahead zero_for_one w'.sqrt_price w.sqrt_price
      × (w'.amount_remaining ≤ w.amount_remaining)
      × (w.amount_out ≤ w'.amount_out)
  Came w (returned out _) = w.amount_out ≤ out

  abbrev AtTick : ℕ → Round → Type 0
  AtTick target (going w') = w'.sqrt_price ≡ target
  AtTick target (returned _ _) = Unit

  Came-Accounts :
      (w : Walk) (target : ℕ) (step : SwapStepResult) (r : Round)
      → Ahead zero_for_one target w.sqrt_price
      → Accounts w target step r
      → Came w r × AtTick target r
  Came-Accounts w target step (going w') ahead (a, b, c) =
      ((rw c ahead, omega arith, omega arith), c)
  Came-Accounts w target step (returned out d) ahead (a, b) = (omega arith, tt)

  tick_round-Came :
      (tick : TickState) (target : ℕ) (w : Walk) {r : Round}
      → sqrt_ratio_at_tick tick.tick ≡ ok target
      → Ahead zero_for_one target w.sqrt_price
      → tick_round zero_for_one fee tick w ≡ ok r
      → Came w r × AtTick target r
  unfolding tick_round jump_round
  tick_round-Came tick target w {r} e ahead h = elim (Bool-cases (w.liquidity == 0)) [
    | inl empty ↦
        >>=-elim (apply_liquidity_delta w.liquidity (net_delta zero_for_one tick)) _
          (rw (e, empty) at h)
          λ l _ k.
            subst (λ r'. Came w r' × AtTick target r') (ok_injective _ r k)
              ((ahead, le_refl w.amount_remaining, le_refl w.amount_out), refl)
    | inr active ↦
        let (step, _, accounts) =
          swap_round-Accounts tick target w (ground arith) ahead (rw (e, active) at h) in
        Came-Accounts w target step r ahead accounts
  ]

  Came-trans : (w w' : Walk) (r : Round) → Came w (going w') → Came w' r → Came w r
  Came-trans w w' (going w'') (a, b, c) (a', b', c') = (
    Ahead-trans zero_for_one w''.sqrt_price w'.sqrt_price w.sqrt_price a' a,
    omega arith,
    omega arith,
  )
  Came-trans w w' (returned out d) (a, b, c) k = omega arith

  Came-self : (w : Walk) → Came w (going w)
  Came-self w =
      (Ahead-refl zero_for_one w.sqrt_price, le_refl w.amount_remaining, le_refl w.amount_out)

  after_round-Came :
      (ts : List TickState) (target : ℕ) (w : Walk) (first : Round) {r : Round}
      → Came w first × AtTick target first
      → Lined target ts
      → ((w' : Walk)
          → Lined w'.sqrt_price ts
          → walk_ticks zero_for_one fee ts w' ≡ ok r
          → Came w' r)
      → elim first [
        | going w' ↦ walk_ticks zero_for_one fee ts w'
        | returned out d ↦ ok (returned out d)
      ]
        ≡ ok r
      → Came w r
  after_round-Came ts target w (going w') {r} (came, here) lined rest h =
      Came-trans w w' r came (rest w' (subst (λ p. Lined p ts) (sym here) lined) h)
  after_round-Came ts target w (returned out d) {r} (came, _) lined rest h =
      subst (Came w) (ok_injective (returned out d) r h) came

  -- Over ticks whose prices line up, a walk that goes on to its end never turned the price back, never
  -- raised what remains and never lowered the output; a walk that ended early never lowered the output.
  pub walk_ticks-Came :
      (ts : List TickState) (w : Walk) {r : Round}
      → Lined w.sqrt_price ts
      → walk_ticks zero_for_one fee ts w ≡ ok r
      → Came w r
  unfolding walk_ticks tick_round
  walk_ticks-Came [] w {r} lined h = subst (Came w) (ok_injective (going w) r h) (Came-self w)
  walk_ticks-Came (t ∷ ts) w {r} lined h = elim (Bool-cases (w.amount_remaining == 0)) [
    | inl spent ↦ subst (Came w) (ok_injective (going w) r (rw spent at h)) (Came-self w)
    | inr busy ↦ >>=-elim (tick_round zero_for_one fee t w) _ (rw busy at h) λ first e k.
        >>=-elim (sqrt_ratio_at_tick t.tick) _ e λ target p _.
          let (ahead, rest) = lined target p in
          after_round-Came ts target w first (tick_round-Came t target w p ahead e) rest
            (λ w' l. walk_ticks-Came ts w' l) k
  ]
