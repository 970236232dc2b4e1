-- ===== src/MarketData/Ticks/Change.antt =====
-- What a change of liquidity does to each tick of a pool.
use mathlib.Core.Path.{subst}
use dexmoney.Prelude.{
  ℕ, Bool, true, false, Option, none, some, ok, ok_or, ok_or-eq-ok, ok_injective, >>=-elim, List,
  [], ◌∷◌, ◌==◌, ◌≡◌, refl, sym, ap, ◌∙◌, inl, inr, if◌then◌else◌, Bool-cases, unwrap_or,
}
use dexmoney.Prelude.Int.{ℤ, pos}
use dexmoney.Common.Pool.{PoolId, TickState}
use dexmoney.MarketData.Events.{TickDelta}
use dexmoney.MarketData.Ticks.{
  eq_ℤ, checked_add_i128, apply_signed_u256_delta, tick_at, new_tick, store_tick, apply_delta,
}
use dexmoney.MarketData.Ticks.Lookup.{
  IsDistinct, eq_ℤ_iff, eq_ℤ_self, swap_remove_lem, set_tick_lem, append_one_lem,
}

-- The net and the gross liquidity of a stored tick.
abbrev pub liquidity_of : Option TickState → Option (ℤ × ℕ)
liquidity_of none = none
liquidity_of (some s) = some (s.liquidity_net, s.liquidity_gross)

abbrev pub liquidity_at : List TickState → ℤ → Option (ℤ × ℕ)
liquidity_at ticks t = liquidity_of (tick_at ticks t)

-- A tick with no gross liquidity is not kept.
abbrev kept : TickState → Option TickState
kept new = if new.liquidity_gross == 0 then none else some new

-- One tick is written or goes; the others stay.
abbrev Writes : ℤ → Option TickState → List TickState → List TickState → Type 0
Writes t new ticks ticks' =
    IsDistinct ticks' × ((u : ℤ) → tick_at ticks' u ≡ (if eq_ℤ t u then new else tick_at ticks u))

nothing_there :
    (ticks : List TickState) (t u : ℤ)
    → tick_at ticks t ≡ none
    → tick_at ticks u ≡ (if eq_ℤ t u then none else tick_at ticks u)
nothing_there ticks t u h = elim (Bool-cases (eq_ℤ t u)) [
  | inl e ↦ rw e (subst (λ v. tick_at ticks v ≡ none) ((eq_ℤ_iff t u).0 e) h)
  | inr e ↦ rw e refl
]

liquidity_of-if :
    (test : Bool) (s : TickState)
    → liquidity_of (if test then none else some s)
      ≡ (if test then none else some (s.liquidity_net, s.liquidity_gross))
liquidity_of-if true s = refl
liquidity_of-if false s = refl

-- The change of a tick's liquidity: net and gross are changed from what is stored, or from 0.
abbrev pub net_of : Option (ℤ × ℕ) → ℤ
net_of none = pos 0
net_of (some (net, gross)) = net

abbrev pub gross_of : Option (ℤ × ℕ) → ℕ
gross_of none = 0
gross_of (some (net, gross)) = gross

abbrev pub Moves : ℤ → ℤ → Option (ℤ × ℕ) → Option (ℤ × ℕ) → Type 0
Moves gross_delta net_delta before after =
    (net : ℤ) × (gross : ℕ) × (checked_add_i128 (net_of before) net_delta ≡ some net)
    × (apply_signed_u256_delta (gross_of before) gross_delta ≡ ok gross)
    × (after ≡ (if gross == 0 then none else some (net, gross)))

module _ (pool_id : PoolId) (block_number now : ℕ) where
  store_tick-Writes :
      (existing : Option TickState) (new : TickState) (ticks : List TickState)
      → tick_at ticks new.tick ≡ existing
      → IsDistinct ticks
      → Writes new.tick (kept new) ticks (store_tick pool_id block_number now existing new ticks)
  unfolding store_tick
  store_tick-Writes (some old) new ticks h d = elim (Bool-cases (new.liquidity_gross == 0)) [
    | inl e ↦ rw e (swap_remove_lem ticks new.tick d)
    | inr e ↦ rw e (set_tick_lem ticks new h d)
  ]
  store_tick-Writes none new ticks h d = elim (Bool-cases (new.liquidity_gross == 0)) [
    | inl e ↦ rw e (d, λ u. nothing_there ticks new.tick u h)
    | inr e ↦ rw e (append_one_lem ticks new h d)
  ]

  tick_state-eq :
      (existing : Option TickState) (t : ℤ)
      → let s = unwrap_or existing (new_tick pool_id block_number now t) in
        (s.liquidity_net ≡ net_of (liquidity_of existing))
        × (s.liquidity_gross ≡ gross_of (liquidity_of existing))
  unfolding new_tick
  tick_state-eq none t = (refl, refl)
  tick_state-eq (some s) t = (refl, refl)

  stored_tick :
      (ticks : List TickState) (t : ℤ)
      → (unwrap_or (tick_at ticks t) (new_tick pool_id block_number now t)).tick ≡ t
  unfolding tick_at new_tick
  stored_tick [] t = refl
  stored_tick (s ∷ ticks) t = elim (Bool-cases (eq_ℤ s.tick t)) [
    | inl e ↦ rw e ((eq_ℤ_iff s.tick t).0 e)
    | inr e ↦ rw e (stored_tick ticks t)
  ]

  -- A change that succeeds moves its tick and no other.
  abbrev pub Changes : TickDelta → List TickState → List TickState → Type 0
  Changes delta ticks ticks' =
      IsDistinct ticks'
      × Moves delta.liquidity_gross_delta delta.liquidity_net_delta (liquidity_at ticks delta.tick)
          (liquidity_at ticks' delta.tick)
      × ((u : ℤ) → eq_ℤ delta.tick u ≡ false → liquidity_at ticks' u ≡ liquidity_at ticks u)

  pub apply_delta-Changes :
      (delta : TickDelta) (ticks ticks' : List TickState)
      → IsDistinct ticks
      → apply_delta pool_id block_number now delta ticks ≡ ok ticks'
      → Changes delta ticks ticks'
  unfolding apply_delta
  apply_delta-Changes delta ticks ticks' d h =
      let existing = tick_at ticks delta.tick in
      let state = unwrap_or existing (new_tick pool_id block_number now delta.tick) in
      >>=-elim (ok_or (checked_add_i128 state.liquidity_net delta.liquidity_net_delta) _) _ h
        λ net hn h1.
          >>=-elim (apply_signed_u256_delta state.liquidity_gross delta.liquidity_gross_delta) _ h1
            λ gross hg h2.
              let new : TickState = record state {
                liquidity_net = net;
                liquidity_gross = gross;
                block_number = block_number;
                updated_at = now;
              } in
              let (en, eg) = tick_state-eq existing delta.tick in
              let et = stored_tick ticks delta.tick in
              let w : Writes delta.tick (kept new) ticks ticks' =
                subst (λ t. Writes t (kept new) ticks ticks') et
                  (subst (Writes new.tick (kept new) ticks) (ok_injective _ _ h2)
                    (store_tick-Writes existing new ticks (ap (tick_at ticks) et) d)) in
              (
                w.0,
                (
                  net,
                  gross,
                  ap (λ n. checked_add_i128 n delta.liquidity_net_delta) (sym en)
                      ∙ ok_or-eq-ok _ _ hn,
                  ap (λ g. apply_signed_u256_delta g delta.liquidity_gross_delta) (sym eg) ∙ hg,
                  ap liquidity_of (w.1 delta.tick ∙ rw (eq_ℤ_self delta.tick) refl)
                      ∙ liquidity_of-if (gross == 0) new,
                ),
                λ u e. ap liquidity_of (w.1 u ∙ rw e refl),
              )
