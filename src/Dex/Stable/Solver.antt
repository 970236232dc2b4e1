-- ===== src/Dex/Stable/Solver.antt =====
-- The value that the Newton iteration returns.
use dexmoney.Prelude.{
  ℕ, zero, suc, ◌-◌, ◌≤◌, ◌<◌, ◌≡◌, ◌⊎◌, inl, inr, true, false, ok, arith, >>=-elim, ok_or,
  ok_injective, never, ltb, ◌==◌, ◌||◌, Bool-cases,
}
use mathlib.Core.Path.{subst}
use dexmoney.Word.{checked_add}
use dexmoney.Common.Errors.{quote}
use dexmoney.Dex.Stable.{
  Newton, found, again, stable_f, stable_d, nudge_up, newton_up, nudge_down, newton_down,
  newton_decrease, newton_change, newton_branch, newton_round, get_y_rounds, get_y,
}

-- `y` reaches the constant on the curve at `x0`, exactly or as the least such value.
pub record Solves (x0 xy y : ℕ) : Type 0 where
  pub value : ℕ
  pub at_y : stable_f x0 y ≡ ok value
  pub reaches : xy ≤ value
  pub is_least :
      (value ≡ xy) ⊎ (y ≡ 0) ⊎ ((below : ℕ) × (stable_f x0 (y - 1) ≡ ok below) × (below < xy))

abbrev Settles : ℕ → ℕ → Newton → Type 0
Settles x0 xy (found y) = Solves x0 xy y
Settles x0 xy (again _) = Unit

nudge_up-Settles :
    (x0 xy y k : ℕ) {r : Newton}
    → stable_f x0 y ≡ ok k
    → k < xy
    → nudge_up x0 xy y ≡ ok r
    → Settles x0 xy r
unfolding nudge_up
nudge_up-Settles x0 xy y k {r} here below h =
    >>=-elim (ok_or (checked_add y 1) (quote "stable y add overflow")) _ h λ y' e h1.
      >>=-elim (stable_f x0 y') _ h1 λ f there h2.
        let next : y' - 1 ≡ y = ground arith in
        elim (Bool-cases (ltb xy f)) [
          | inl over ↦ subst (Settles x0 xy) (ok_injective (found y') r (rw over at h2)) (record {
            value = f;
            at_y = there;
            reaches = ground arith;
            is_least = inr (inr (k, rw next here, below));
          })
          | inr more ↦ subst (Settles x0 xy) (ok_injective (again y') r (rw more at h2)) tt
        ]

newton_up-Settles :
    (x0 xy y k dy : ℕ) {r : Newton}
    → stable_f x0 y ≡ ok k
    → k < xy
    → newton_up x0 xy y k dy ≡ ok r
    → Settles x0 xy r
unfolding newton_up
newton_up-Settles x0 xy y k dy {r} here below h = elim (Bool-cases (dy == 0)) [
  | inl flat ↦
      let differ : (k == xy) ≡ false = ground arith in
      nudge_up-Settles x0 xy y k here below (rw (flat, differ) at h)
  | inr steep ↦
      >>=-elim (ok_or (checked_add y dy) (quote "stable y add overflow")) _ (rw steep at h)
        λ next _ h1. subst (Settles x0 xy) (ok_injective (again next) r h1) tt
]

newton_decrease-Settles :
    (x0 xy y dy : ℕ) {r : Newton} → newton_decrease y dy ≡ ok r → Settles x0 xy r
unfolding newton_decrease
newton_decrease-Settles x0 xy y dy {r} h = elim (Bool-cases (ltb y dy)) [
  | inl under ↦ absurd (never (rw under at h))
  | inr fits ↦ subst (Settles x0 xy) (ok_injective (again (y - dy)) r (rw fits at h)) tt
]

nudge_down-Settles :
    (x0 xy y k : ℕ) {r : Newton}
    → stable_f x0 y ≡ ok k
    → xy ≤ k
    → nudge_down x0 xy y ≡ ok r
    → Settles x0 xy r
unfolding nudge_down
nudge_down-Settles x0 xy y k {r} here above h = >>=-elim (stable_f x0 (y - 1)) _ h λ f there h1.
    elim (Bool-cases (ltb f xy)) [
      | inl under ↦ subst (Settles x0 xy) (ok_injective (found y) r (rw under at h1)) (record {
        value = k;
        at_y = here;
        reaches = above;
        is_least = inr (inr (f, there, ground arith));
      })
      | inr more ↦ newton_decrease-Settles x0 xy y 1 (rw more at h1)
    ]

newton_down-Settles :
    (x0 xy y k dy : ℕ) {r : Newton}
    → stable_f x0 y ≡ ok k
    → xy ≤ k
    → newton_down x0 xy y k dy ≡ ok r
    → Settles x0 xy r
unfolding newton_down
newton_down-Settles x0 xy y k dy {r} here above h = elim (Bool-cases (dy == 0)) [
  | inl flat ↦ elim (Bool-cases (k == xy || y == 0)) [
    | inl done ↦
        subst (Settles x0 xy) (ok_injective (found y) r (rw (flat, done) at h))
          (record { value = k; at_y = here; reaches = above; is_least = end done })
    | inr more ↦ nudge_down-Settles x0 xy y k here above (rw (flat, more) at h)
  ]
  | inr steep ↦ newton_decrease-Settles x0 xy y dy (rw steep at h)
]
  where
    end :
        (k == xy || y == 0) ≡ true
        → (k ≡ xy) ⊎ (y ≡ 0) ⊎ ((below : ℕ) × (stable_f x0 (y - 1) ≡ ok below) × (below < xy))
    end done = ground arith

newton_branch-Settles :
    (x0 xy y k d : ℕ) {r : Newton}
    → stable_f x0 y ≡ ok k
    → newton_branch x0 xy y k d ≡ ok r
    → Settles x0 xy r
unfolding newton_branch
newton_branch-Settles x0 xy y k d here h = elim (Bool-cases (ltb k xy)) [
  | inl below ↦
      >>=-elim (ok_or (newton_change xy k d) (quote "stable y increment overflow")) _
        (rw below at h) λ dy _ h1. newton_up-Settles x0 xy y k dy here (ground arith) h1
  | inr above ↦
      >>=-elim (ok_or (newton_change k xy d) (quote "stable y decrement overflow")) _
        (rw above at h) λ dy _ h1. newton_down-Settles x0 xy y k dy here (ground arith) h1
]

newton_round-Settles : (x0 xy y : ℕ) {r : Newton} → newton_round x0 xy y ≡ ok r → Settles x0 xy r
unfolding newton_round
newton_round-Settles x0 xy y {r} h = >>=-elim (stable_f x0 y) _ h λ k here h1.
    >>=-elim (stable_d x0 y) _ h1 λ d _ h2. elim (Bool-cases (d == 0)) [
      | inl zero_d ↦ absurd (never (rw zero_d at h2))
      | inr some_d ↦ newton_branch-Settles x0 xy y k d here (rw some_d at h2)
    ]

after_round :
    (rounds x0 xy : ℕ) (r : Newton) {result : ℕ}
    → Settles x0 xy r
    → ((y : ℕ) → get_y_rounds rounds x0 xy y ≡ ok result → Solves x0 xy result)
    → elim r [ found y ↦ ok y | again y ↦ get_y_rounds rounds x0 xy y ] ≡ ok result
    → Solves x0 xy result
after_round rounds x0 xy (found y) {result} s rest h =
    subst (Solves x0 xy) (ok_injective y result h) s
after_round rounds x0 xy (again y) s rest h = rest y h

get_y_rounds-Solves :
    (rounds x0 xy y : ℕ) {result : ℕ}
    → get_y_rounds rounds x0 xy y ≡ ok result
    → Solves x0 xy result
unfolding get_y_rounds
get_y_rounds-Solves zero x0 xy y h = absurd (never h)
get_y_rounds-Solves (suc rounds) x0 xy y {result} h = >>=-elim (newton_round x0 xy y) _ h λ r e k.
    after_round rounds x0 xy r (newton_round-Settles x0 xy y e)
      (λ y'. get_y_rounds-Solves rounds x0 xy y') k

-- Whatever the start, a value that the iteration returns reaches the constant on the curve, and it is
-- exact, or 0, or the value below it falls short.
pub get_y-Solves : (x0 xy start : ℕ) {y : ℕ} → get_y x0 xy start ≡ ok y → Solves x0 xy y
unfolding get_y
get_y-Solves x0 xy start h = get_y_rounds-Solves 255 x0 xy start h
