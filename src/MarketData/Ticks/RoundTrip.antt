-- ===== src/MarketData/Ticks/RoundTrip.antt =====
-- A position that is opened and closed again leaves the liquidity of every tick as it was.
use mathlib.Core.Path.{subst}
use dexmoney.Prelude.{
  some_injective, ℕ, zero, suc, ◌+◌, ◌-◌, Bool, true, false, Option, none, some, ok, ok_injective,
  >>=-elim, List, [], ◌∷◌, ◌==◌, ◌≡◌, ◌≢◌, refl, sym, ap, ◌∙◌, inl, inr, if◌then◌else◌, Bool-cases,
  arith,
}
use dexmoney.Prelude.Int.{ℤ, pos, negate}
use dexmoney.Prelude.Sorting.{sort, insert_sorted}
use dexmoney.Common.Pool.{PoolId, TickState}
use dexmoney.MarketData.Events.{TickDelta, position_deltas}
use dexmoney.MarketData.Ticks.{
  eq_ℤ, ◌+ℤ◌, checked_add_i128, apply_signed_u256_delta, tick_at, apply_delta, apply_deltas,
  apply_tick_deltas, by_tick,
}
use dexmoney.MarketData.Ticks.Lookup.{IsDistinct, eq_ℤ_iff, eq_ℤ_comm}
use dexmoney.MarketData.Ticks.Change.{
  liquidity_of, liquidity_at, Moves, Changes, apply_delta-Changes,
}

if-none {ℓ} :
    {A : Type ℓ} (test : Bool) (x : A) (o : Option A)
    → (if test then some x else o) ≡ none
    → (test ≡ false) × (o ≡ none)
if-none true x o h = cc
if-none false x o h = (refl, h)

eq_ℤ_apart : (a b c : ℤ) → eq_ℤ a b ≡ false → eq_ℤ a c ≡ true → eq_ℤ b c ≡ false
eq_ℤ_apart a b c h k = ground arith

-- Sorting moves no liquidity.
insert_sorted_lem :
    (le : TickState → TickState → Bool) (s : TickState) (ticks : List TickState)
    → IsDistinct (s ∷ ticks)
    → IsDistinct (insert_sorted le s ticks)
      × ((u : ℤ) → tick_at (insert_sorted le s ticks) u ≡ tick_at (s ∷ ticks) u)
unfolding insert_sorted tick_at
insert_sorted_lem le s [] d = (d, λ u. refl)
insert_sorted_lem le s (x ∷ ticks) (d, (dx, ds)) = elim (Bool-cases (le s x)) [
  | inl e ↦ rw e ((d, (dx, ds)), λ u. refl)
  | inr e ↦
      let (apart, new) = if-none (eq_ℤ x.tick s.tick) x (tick_at ticks s.tick) d in
      let (distinct, same) = insert_sorted_lem le s ticks (new, ds) in
      rw e (
        (same x.tick ∙ rw (eq_ℤ_comm s.tick x.tick ∙ apart) dx, distinct),
        λ u. elim (Bool-cases (eq_ℤ x.tick u)) [
          | inl f ↦ rw (f, eq_ℤ_apart x.tick s.tick u apart f) refl
          | inr f ↦ rw f (same u)
        ],
      )
]

sort_lem :
    (le : TickState → TickState → Bool) (ticks : List TickState)
    → IsDistinct ticks
    → IsDistinct (sort le ticks) × ((u : ℤ) → tick_at (sort le ticks) u ≡ tick_at ticks u)
unfolding sort tick_at
sort_lem le [] d = (tt, λ u. refl)
sort_lem le (s ∷ ticks) (d, ds) =
    let (distinct, same) = sort_lem le ticks ds in
    let (distinct', same') = insert_sorted_lem le s (sort le ticks) (same s.tick ∙ d, distinct) in
    (distinct', λ u. same' u ∙ ap (λ o. if eq_ℤ s.tick u then some s else o) (same u))

-- The two ends of a position are moved, and no other tick.
abbrev MovesEnds : TickDelta → TickDelta → List TickState → List TickState → Type 0
MovesEnds a b ticks ticks' =
    IsDistinct ticks'
    × Moves a.liquidity_gross_delta a.liquidity_net_delta (liquidity_at ticks a.tick)
        (liquidity_at ticks' a.tick)
    × Moves b.liquidity_gross_delta b.liquidity_net_delta (liquidity_at ticks b.tick)
        (liquidity_at ticks' b.tick)
    × ((u : ℤ)
        → eq_ℤ a.tick u ≡ false
        → eq_ℤ b.tick u ≡ false
        → liquidity_at ticks' u ≡ liquidity_at ticks u)

sorted-MovesEnds :
    (pool_id : PoolId) (block_number now : ℕ) (a b : TickDelta)
    (ticks first second : List TickState)
    → eq_ℤ a.tick b.tick ≡ false
    → Changes pool_id block_number now a ticks first
    → (IsDistinct first → Changes pool_id block_number now b first second)
    → MovesEnds a b ticks (sort by_tick second)
sorted-MovesEnds pool_id block_number now a b ticks first second apart (d, moved, others) then_b =
    let (d', moved', others') = then_b d in
    let (distinct, same) = sort_lem by_tick second d' in
    let kept_a = ap liquidity_of (same a.tick) ∙ others' a.tick (eq_ℤ_comm b.tick a.tick ∙ apart) in
    (
      distinct,
      subst (Moves a.liquidity_gross_delta a.liquidity_net_delta (liquidity_at ticks a.tick))
          (sym kept_a) moved,
      subst
          (λ o.
            Moves b.liquidity_gross_delta b.liquidity_net_delta o
              (liquidity_at (sort by_tick second) b.tick))
          (others b.tick apart)
          (subst (Moves b.liquidity_gross_delta b.liquidity_net_delta (liquidity_at first b.tick))
            (sym (ap liquidity_of (same b.tick))) moved'),
      λ u ea eb. ap liquidity_of (same u) ∙ others' u eb ∙ others u ea,
    )

two_deltas-MovesEnds :
    (pool_id : PoolId) (block_number now : ℕ) (a b : TickDelta) (ticks ticks' : List TickState)
    → IsDistinct ticks
    → eq_ℤ a.tick b.tick ≡ false
    → apply_tick_deltas pool_id block_number now (a ∷ b ∷ []) ticks ≡ ok (some ticks')
    → MovesEnds a b ticks ticks'
unfolding apply_tick_deltas apply_deltas
two_deltas-MovesEnds pool_id block_number now a b ticks ticks' d apart h =
    >>=-elim (apply_deltas pool_id block_number now (a ∷ b ∷ []) ticks) _ h λ last hl h1.
      >>=-elim (apply_delta pool_id block_number now a ticks) _ hl λ first ha h2.
        >>=-elim (apply_delta pool_id block_number now b first) _ h2 λ second hb h3.
          let last_eq = ok_injective second last h3 in
          let sorted_eq = some_injective (sort by_tick last) ticks' (ok_injective _ _ h1) in
          subst (MovesEnds a b ticks) (ap (sort by_tick) last_eq ∙ sorted_eq) (
            sorted-MovesEnds pool_id block_number now a b ticks first second apart
              (apply_delta-Changes pool_id block_number now a ticks first d ha)
              (λ distinct. apply_delta-Changes pool_id block_number now b first second distinct hb))

-- A position's change moves what a later change of the same ends takes back.
signed_cancel : (n d : ℤ) → (n +ℤ d) +ℤ negate d ≡ n
unfolding ◌+ℤ◌
signed_cancel n d = ground arith

if-some : (test : Bool) (x c : ℤ) → (if test then some x else none) ≡ some c → x ≡ c
if-some true x c h = cc
if-some false x c h = cc

checked_add_i128-eq : (a b c : ℤ) → checked_add_i128 a b ≡ some c → a +ℤ b ≡ c
unfolding checked_add_i128
checked_add_i128-eq a b c h = if-some _ (a +ℤ b) c h

add_gross : (g a x : ℕ) → apply_signed_u256_delta g (pos a) ≡ ok x → x ≡ g + a
unfolding apply_signed_u256_delta
add_gross g a x h = ground arith

take_gross : (g a x : ℕ) → apply_signed_u256_delta g (negate (pos a)) ≡ ok x → x ≡ g - a
unfolding apply_signed_u256_delta
take_gross g zero x h = ground arith
take_gross g (suc a) x h = ground arith

-- A stored tick has gross liquidity.
abbrev pub Standing : Option (ℤ × ℕ) → Type 0
Standing none = Unit
Standing (some (net, gross)) = gross ≢ 0

gone : (g : ℕ) → g ≡ 0 → (g == 0) ≡ true
gone g h = ground arith

stays : (g : ℕ) → g ≢ 0 → (g == 0) ≡ false
stays g h = ground arith

grown : (g a g1 : ℕ) → g ≢ 0 → g1 ≡ g + a → g1 ≢ 0
grown g a g1 h e k = h (omega arith)

-- What follows a tick that goes, or that stays.
Moves-from :
    (gd nd : ℤ) (o1 o2 o1' : Option (ℤ × ℕ)) → Moves gd nd o1 o2 → o1 ≡ o1' → Moves gd nd o1' o2
Moves-from gd nd o1 o2 o1' h e = subst (λ o. Moves gd nd o o2) e h

-- What is stored of a tick.
abbrev stored : ℤ → ℕ → Option (ℤ × ℕ)
stored net g = if g == 0 then none else some (net, g)

nothing_kept : (net : ℤ) (g : ℕ) → (g == 0) ≡ true → stored net g ≡ none
nothing_kept net g h = rw h refl

all_kept : (net : ℤ) (g : ℕ) → (g == 0) ≡ false → stored net g ≡ some (net, g)
all_kept net g h = rw h refl

ne-apart : (a b : ℤ) → a ≢ b → eq_ℤ a b ≡ false
ne-apart a b h = elim (Bool-cases (eq_ℤ a b)) [
  | inl e ↦ absurd (h ((eq_ℤ_iff a b).0 e))
  | inr e ↦ e
]

Moves-back :
    (a : ℕ) (nd : ℤ) (o o1 o2 : Option (ℤ × ℕ))
    → Standing o
    → Moves (pos a) nd o o1
    → Moves (negate (pos a)) (negate nd) o1 o2
    → o2 ≡ o
Moves-back a nd none o1 o2 st (n1, g1, hn1, hg1, e1) back =
    let eg1 = add_gross 0 a g1 hg1 in
    elim (Bool-cases (g1 == 0)) [
      | inl z ↦
          let (n2, g2, hn2, hg2, e2) =
            Moves-from (negate (pos a)) (negate nd) o1 o2 none back (e1 ∙ nothing_kept n1 g1 z) in
          let eg2 = take_gross 0 a g2 hg2 in e2 ∙ nothing_kept n2 g2 (gone g2 (omega arith))
      | inr z ↦
          let (n2, g2, hn2, hg2, e2) =
            Moves-from (negate (pos a)) (negate nd) o1 o2 (some (n1, g1)) back
              (e1 ∙ all_kept n1 g1 z) in
          let eg2 = take_gross g1 a g2 hg2 in e2 ∙ nothing_kept n2 g2 (gone g2 (omega arith))
    ]
Moves-back a nd (some (n, g)) o1 o2 st (n1, g1, hn1, hg1, e1) back =
    let eg1 = add_gross g a g1 hg1 in
    let (n2, g2, hn2, hg2, e2) =
      Moves-from (negate (pos a)) (negate nd) o1 o2 (some (n1, g1)) back
        (e1 ∙ all_kept n1 g1 (stays g1 (grown g a g1 st eg1))) in
    let eg2 : g2 ≡ g = omega (arith, take_gross g1 a g2 hg2) in
    let en2 : n2 ≡ n =
      sym (checked_add_i128-eq n1 (negate nd) n2 hn2)
      ∙ ap (λ m. m +ℤ negate nd) (sym (checked_add_i128-eq n nd n1 hn1))
      ∙ signed_cancel n nd in
    e2 ∙ rw (eg2, en2) (all_kept n g (stays g st))

-- A position between two ticks is opened and closed again, with the same amount, and both changes of the
-- pool's stored ticks succeed. Where no tick was stored twice and each had gross liquidity, every tick has
-- the net and gross liquidity that it had before, and is stored only if it was.
pub mint_then_burn :
    (pool_id : PoolId) (block_number now block_number' now' amount : ℕ) (lower upper : ℤ)
    (ticks minted burned : List TickState)
    → IsDistinct ticks
    → ((t : ℤ) → Standing (liquidity_at ticks t))
    → lower ≢ upper
    → apply_tick_deltas pool_id block_number now (position_deltas true lower upper amount) ticks
      ≡ ok (some minted)
    → apply_tick_deltas pool_id block_number' now' (position_deltas false lower upper amount) minted
      ≡ ok (some burned)
    → (t : ℤ) → liquidity_at burned t ≡ liquidity_at ticks t
unfolding position_deltas
mint_then_burn pool_id block_number now block_number' now' amount lower upper ticks minted burned d
      st ne mint burn t =
    let apart : eq_ℤ lower upper ≡ false = ne-apart lower upper ne in
    let (d1, low1, up1, rest1) =
      two_deltas-MovesEnds pool_id block_number now _ _ ticks minted d apart mint in
    let (d2, low2, up2, rest2) =
      two_deltas-MovesEnds pool_id block_number' now' _ _ minted burned d1 apart burn in
    elim (Bool-cases (eq_ℤ lower t)) [
      | inl e ↦
          subst (λ u. liquidity_at burned u ≡ liquidity_at ticks u) ((eq_ℤ_iff lower t).0 e)
            (Moves-back amount (pos amount) _ _ _ (st lower) low1 low2)
      | inr e ↦ elim (Bool-cases (eq_ℤ upper t)) [
        | inl f ↦
            subst (λ u. liquidity_at burned u ≡ liquidity_at ticks u) ((eq_ℤ_iff upper t).0 f)
              (Moves-back amount (negate (pos amount)) _ _ _ (st upper) up1 up2)
        | inr f ↦ rest2 t e f ∙ rest1 t e f
      ]
    ]
