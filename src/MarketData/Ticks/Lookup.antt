-- ===== src/MarketData/Ticks/Lookup.antt =====
-- Looking up a tick after the ticks of a pool are changed.
use mathlib.Core.Path.{subst}
use dexmoney.Prelude.{
  Bool, true, false, Option, none, some, List, [], ◌∷◌, ◌++◌, ◌≡◌, ◌↔◌, refl, sym, ap, ◌∙◌, inl,
  inr, if◌then◌else◌, Bool-cases, arith,
}
use dexmoney.Prelude.Int.{ℤ}
use dexmoney.Common.Pool.{TickState}
use dexmoney.MarketData.Ticks.{eq_ℤ, tick_at, set_tick, split_last, last_first, swap_remove}

pub eq_ℤ_iff : (a b : ℤ) → (eq_ℤ a b ≡ true) ↔ (a ≡ b)
eq_ℤ_iff a b = ground arith

pub eq_ℤ_self : (a : ℤ) → eq_ℤ a a ≡ true
eq_ℤ_self a = (eq_ℤ_iff a a).1 refl

-- No tick stands twice.
abbrev pub IsDistinct : List TickState → Type 0
IsDistinct [] = Unit
IsDistinct (s ∷ ticks) = (tick_at ticks s.tick ≡ none) × IsDistinct ticks

abbrev or_else {ℓ} : {A : Type ℓ} → Option A → Option A → Option A
or_else none b = b
or_else (some a) b = some a

or_else-if {ℓ} :
    {A : Type ℓ} (test : Bool) (x : A) (a b : Option A)
    → (if test then some x else or_else a b) ≡ or_else (if test then some x else a) b
or_else-if true x a b = refl
or_else-if false x a b = refl

tick_at-append :
    (xs ys : List TickState) (t : ℤ) → tick_at (xs ++ ys) t ≡ or_else (tick_at xs t) (tick_at ys t)
unfolding tick_at
tick_at-append [] ys t = refl
tick_at-append (x ∷ xs) ys t =
    rw (tick_at-append xs ys t) (or_else-if (eq_ℤ x.tick t) x (tick_at xs t) (tick_at ys t))

or_else-none {ℓ} :
    {A : Type ℓ} (a : Option A) (test : Bool) (x : A)
    → or_else a (if test then some x else none) ≡ none
    → (a ≡ none) × (test ≡ false)
or_else-none none true x h = cc
or_else-none none false x h = (refl, refl)
or_else-none (some a) test x h = cc

pub eq_ℤ_comm : (a b : ℤ) → eq_ℤ a b ≡ eq_ℤ b a
eq_ℤ_comm a b = ground arith

-- The last element apart from the others: both are distinct from one another.
IsDistinct-append_one :
    (xs : List TickState) (y : TickState)
    → IsDistinct (xs ++ y ∷ [])
    → IsDistinct xs × (tick_at xs y.tick ≡ none)
unfolding tick_at
IsDistinct-append_one [] y d = (tt, refl)
IsDistinct-append_one (x ∷ xs) y (d, ds) =
    let (rest, new) = IsDistinct-append_one xs y ds in
    let (first, apart) =
      or_else-none (tick_at xs x.tick) (eq_ℤ y.tick x.tick) y
        (sym (tick_at-append xs (y ∷ []) x.tick) ∙ d) in
    ((first, rest), rw (eq_ℤ_comm x.tick y.tick, apart) new)

split_last_lem :
    (s : TickState) (ticks : List TickState)
    → s ∷ ticks ≡ (split_last s ticks).0 ++ (split_last s ticks).1 ∷ []
unfolding split_last
split_last_lem s [] = refl
split_last_lem s (next ∷ ticks) = ap (λ l. s ∷ l) (split_last_lem next ticks)

or_else-nothing {ℓ} : {A : Type ℓ} (a : Option A) → a ≡ or_else a none
or_else-nothing none = refl
or_else-nothing (some a) = refl

if_same {ℓ} : {A : Type ℓ} (test : Bool) (a : A) → a ≡ (if test then a else a)
if_same true a = refl
if_same false a = refl

-- Moving the last element to the front.
module _ (front : List TickState) (last : TickState) (d : IsDistinct (front ++ last ∷ [])) where
  tick_at-rotate : (t : ℤ) → tick_at (last ∷ front) t ≡ tick_at (front ++ last ∷ []) t
  unfolding tick_at
  tick_at-rotate t =
      let (distinct, new) = IsDistinct-append_one front last d in
      elim (Bool-cases (eq_ℤ last.tick t)) [
        | inl e ↦
            let absent : tick_at front t ≡ none =
              subst (λ u. tick_at front u ≡ none) ((eq_ℤ_iff last.tick t).0 e) new in
            rw (tick_at-append front (last ∷ []) t, absent, e) refl
        | inr e ↦ rw (tick_at-append front (last ∷ []) t, e) (or_else-nothing (tick_at front t))
      ]

  IsDistinct-rotate : IsDistinct (last ∷ front)
  IsDistinct-rotate = let (distinct, new) = IsDistinct-append_one front last d in (new, distinct)

last_first_lem :
    (ticks : List TickState)
    → IsDistinct ticks
    → IsDistinct (last_first ticks) × ((t : ℤ) → tick_at (last_first ticks) t ≡ tick_at ticks t)
unfolding last_first
last_first_lem [] d = (tt, λ t. refl)
last_first_lem (s ∷ ticks) d =
    let (front, last) = split_last s ticks in
    let d' = subst IsDistinct (split_last_lem s ticks) d in
    (
      IsDistinct-rotate front last d',
      λ t. tick_at-rotate front last d' t ∙ ap (λ l. tick_at l t) (sym (split_last_lem s ticks)),
    )

-- Removing a tick leaves the others, in some order.
pub swap_remove_lem :
    (ticks : List TickState) (t : ℤ)
    → IsDistinct ticks
    → IsDistinct (swap_remove ticks t)
      × ((u : ℤ) → tick_at (swap_remove ticks t) u ≡ (if eq_ℤ t u then none else tick_at ticks u))
unfolding swap_remove tick_at
swap_remove_lem [] t d = (tt, λ u. if_same (eq_ℤ t u) none)
swap_remove_lem (s ∷ ticks) t (d, ds) = elim (Bool-cases (eq_ℤ s.tick t)) [
  | inl e ↦
      let (distinct, same) = last_first_lem ticks ds in
      let eq = (eq_ℤ_iff s.tick t).0 e in
      rw e (
        distinct,
        λ u. elim (Bool-cases (eq_ℤ t u)) [
          | inl f ↦ rw f (same u ∙ subst (λ v. tick_at ticks v ≡ none) (eq ∙ (eq_ℤ_iff t u).0 f) d)
          | inr f ↦ rw (f, ap (λ v. eq_ℤ v u) eq ∙ f) (same u)
        ],
      )
  | inr e ↦
      let (distinct, same) = swap_remove_lem ticks t ds in
      rw e (
        (same s.tick ∙ rw (eq_ℤ_comm t s.tick ∙ e) d, distinct),
        λ u. elim (Bool-cases (eq_ℤ s.tick u)) [
          | inl f ↦
              rw (f, eq_ℤ_comm t u ∙ ap (λ v. eq_ℤ v t) (sym ((eq_ℤ_iff s.tick u).0 f)) ∙ e) refl
          | inr f ↦ rw f (same u)
        ],
      )
]

-- Writing a tick that stands in the list.
pub set_tick_lem :
    (ticks : List TickState) (new : TickState) {old : TickState}
    → tick_at ticks new.tick ≡ some old
    → IsDistinct ticks
    → IsDistinct (set_tick ticks new.tick new)
      × ((u : ℤ)
          → tick_at (set_tick ticks new.tick new) u
            ≡ (if eq_ℤ new.tick u then some new else tick_at ticks u))
unfolding set_tick tick_at
set_tick_lem [] new h d = cc
set_tick_lem (s ∷ ticks) new h (d, ds) = elim (Bool-cases (eq_ℤ s.tick new.tick)) [
  | inl e ↦
      let eq = (eq_ℤ_iff s.tick new.tick).0 e in
      rw e (
        (subst (λ v. tick_at ticks v ≡ none) eq d, ds),
        λ u. elim (Bool-cases (eq_ℤ new.tick u)) [
          | inl f ↦ rw f refl
          | inr f ↦ rw (f, ap (λ v. eq_ℤ v u) eq ∙ f) refl
        ],
      )
  | inr e ↦
      let (distinct, same) = set_tick_lem ticks new (rw e at h) ds in
      rw e (
        (same s.tick ∙ rw (eq_ℤ_comm new.tick s.tick ∙ e) d, distinct),
        λ u. elim (Bool-cases (eq_ℤ s.tick u)) [
          | inl f ↦
              rw
                (
                  f,
                  eq_ℤ_comm new.tick u
                      ∙ ap (λ v. eq_ℤ v new.tick) (sym ((eq_ℤ_iff s.tick u).0 f))
                      ∙ e,
                )
                refl
          | inr f ↦ rw f (same u)
        ],
      )
]

-- Adding a tick that does not stand in the list.
pub append_one_lem :
    (ticks : List TickState) (new : TickState)
    → tick_at ticks new.tick ≡ none
    → IsDistinct ticks
    → IsDistinct (ticks ++ new ∷ [])
      × ((u : ℤ)
          → tick_at (ticks ++ new ∷ []) u ≡ (if eq_ℤ new.tick u then some new else tick_at ticks u))
unfolding tick_at
append_one_lem [] new h d = ((refl, tt), λ u. refl)
append_one_lem (s ∷ ticks) new h (d, ds) = elim (Bool-cases (eq_ℤ s.tick new.tick)) [
  | inl e ↦ cc (rw e at h)
  | inr e ↦
      let (distinct, same) = append_one_lem ticks new (rw e at h) ds in
      (
        (same s.tick ∙ rw (eq_ℤ_comm new.tick s.tick ∙ e) d, distinct),
        λ u. elim (Bool-cases (eq_ℤ s.tick u)) [
          | inl f ↦
              rw
                (
                  f,
                  eq_ℤ_comm new.tick u
                      ∙ ap (λ v. eq_ℤ v new.tick) (sym ((eq_ℤ_iff s.tick u).0 f))
                      ∙ e,
                )
                refl
          | inr f ↦ rw f (same u)
        ],
      )
]
