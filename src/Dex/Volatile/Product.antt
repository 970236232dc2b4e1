-- ===== src/Dex/Volatile/Product.antt =====
-- What a constant-product quote does to the pool's reserves.
use native.Mathlib.Nat.{mul-le-mul, le_refl, mul-pos}
use mathlib.Core.Path.{subst}
use dexmoney.Prelude.{ℕ, ◌+◌, ◌-◌, ◌*◌, ◌/◌, ◌≤◌, ◌<◌, ◌^◌, ◌≡◌, ok, ap, sym, arith, ◌⊎◌}
use dexmoney.Word.Division.{div_bounds, lt_of_mul_lt, le_of_mul_le}
use dexmoney.Dex.Volatile.{quote_amount_out}

-- The exact quotient that the quote rounds down.
abbrev pub IsQuotient : ℕ → ℕ → ℕ → ℕ → Type 0
IsQuotient n d x q = (q * d ≤ n) × (n < q * d + d)

-- A successful quote has non-empty reserves and a fee within 100%.
pub quote_amount_out_inputs :
    (r s a fee : ℕ) {out : ℕ}
    → quote_amount_out r s a fee ≡ ok out
    → (0 < r) × (0 < s) × ((a ≡ 0) ⊎ (fee ≤ 10_000))
unfolding quote_amount_out
quote_amount_out_inputs r s a fee h = ground arith

pub quote_amount_out_bounds :
    (r s a fee : ℕ) {out : ℕ}
    → quote_amount_out r s a fee ≡ ok out
    → let x = a * (10_000 - fee) in
      let d = r * 10_000 + x in (0 < d) × (out * d ≤ x * s) × (x * s < out * d + d)
unfolding quote_amount_out
quote_amount_out_bounds r s a fee h =
    let x = a * (10_000 - fee) in let d = r * 10_000 + x in ground (arith, div_bounds (x * s) d)

le_of_suc_lem : (b b' d : ℕ) {n : ℕ} → b * d ≤ n → n < b' * d + d → b ≤ b'
le_of_suc_lem b b' d h k =
    let strict : b < b' + 1 = lt_of_mul_lt b (b' + 1) d (omega arith) in omega arith

mono_lem :
    (R x e x' s b : ℕ) → x' ≡ x + e → b * (R + x) ≤ x * s → b * e ≤ s * e → b * (R + x') ≤ x' * s
mono_lem R x e x' s b p h k = rw p (omega arith)

out-lt_lem : (R x s out : ℕ) → 0 < R → 0 < s → out * (R + x) ≤ x * s → out < s
out-lt_lem R x s out p q h = lt_of_mul_lt out s (R + x) (omega (arith, mul-pos p q))

kept_product_lem :
    (r a x t out : ℕ)
    → x ≤ a * 10_000
    → out * (r * 10_000 + x) ≤ x * (t + out)
    → r * (t + out) ≤ (r + a) * t
kept_product_lem r a x t out p h =
    let moved : out * r ≤ a * t =
      le_of_mul_le (out * r) (a * t) 10_000 (omega arith)
        (omega (arith, mul-le-mul p (le_refl t))) in
    omega arith

-- A successful quote leaves something in the pool, and the product of the reserves does not fall
-- when the input is added and the output is taken.
pub quote_keeps_product :
    (r s a fee : ℕ) {out : ℕ}
    → quote_amount_out r s a fee ≡ ok out
    → (out < s) × (r * s ≤ (r + a) * (s - out))
quote_keeps_product r s a fee {out} h =
    let (_, lo, _) = quote_amount_out_bounds r s a fee h in
    let (pr, ps, _) = quote_amount_out_inputs r s a fee h in
    let x = a * (10_000 - fee) in
    let small : out < s = out-lt_lem (r * 10_000) x s out (omega arith) ps lo in
    let e : s ≡ s - out + out = omega arith in
    let le : x ≤ a * 10_000 = mul-le-mul (le_refl a) (omega arith) in
    let moved : out * (r * 10_000 + x) ≤ x * (s - out + out) =
      subst (λ n. out * (r * 10_000 + x) ≤ x * n) e lo in
    let kept = kept_product_lem r a x (s - out) out le moved in
    (small, subst (λ n. r * n ≤ (r + a) * (s - out)) (sym e) kept)

-- Where both quotes succeed, selling an amount and selling what it brought back into the changed pool, at
-- any two fees, never returns more than was put in.
pub round_trip_no_profit :
    (r s a fee back_fee : ℕ) {b c : ℕ}
    → quote_amount_out r s a fee ≡ ok b
    → quote_amount_out (s - b) (r + a) b back_fee ≡ ok c
    → c ≤ a
round_trip_no_profit r s a fee back_fee {b} {c} h k =
    let (left, first) = quote_keeps_product r s a fee h in
    let (less, second) = quote_keeps_product (s - b) (r + a) b back_fee k in
    let e : s - b + b ≡ s = omega arith in
    let pos : 0 < s = omega arith in
    let chain : r * s ≤ (r + a - c) * s = omega (arith, ap (λ n. n * (r + a - c)) e) in
    let fell : r ≤ r + a - c = le_of_mul_le r (r + a - c) s pos chain in omega arith

-- Where both quotes succeed, a larger input never brings less.
pub quote_mono :
    (r s a a' fee : ℕ) {b b' : ℕ}
    → a ≤ a'
    → quote_amount_out r s a fee ≡ ok b
    → quote_amount_out r s a' fee ≡ ok b'
    → b ≤ b'
quote_mono r s a a' fee {b} {b'} le h k =
    let (_, lo, _) = quote_amount_out_bounds r s a fee h in
    let (_, _, hi) = quote_amount_out_bounds r s a' fee k in
    let (less, _) = quote_keeps_product r s a fee h in
    let x = a * (10_000 - fee) in
    let x' = a' * (10_000 - fee) in
    let grew : x ≤ x' = mul-le-mul le (le_refl (10_000 - fee)) in
    let more : b * (x' - x) ≤ s * (x' - x) = mul-le-mul (omega arith) (le_refl (x' - x)) in
    let e : x' ≡ x + (x' - x) = omega arith in
    le_of_suc_lem b b' (r * 10_000 + x') (mono_lem (r * 10_000) x (x' - x) x' s b e lo more) hi

lt_le_lem : {a b : ℕ} → a < b → a ≤ b
lt_le_lem h = omega arith

module _ (r s a fee : ℕ) (hr : r < 2 ^ 112) (hs : s < 2 ^ 112) (ha : a < 2 ^ 112) where
  scaled_lt :
      (a * (10_000 - fee) ≤ 2 ^ 112 * 10_000)
      × (a * (10_000 - fee) * s ≤ 2 ^ 112 * 10_000 * 2 ^ 112)
  scaled_lt =
      let x : a * (10_000 - fee) ≤ 2 ^ 112 * 10_000 =
        mul-le-mul {m₁ = 10_000 - fee} {m₂ = 10_000} (lt_le_lem ha) (omega arith) in
      (x, mul-le-mul x (lt_le_lem hs))

  -- For positive reserves and input below `2 ^ 112`, as the pool contracts keep them, and a fee within
  -- 100%, no checked operation overflows: the quote is the exact quotient, rounded down.
  pub quote_total :
      0 < r
      → 0 < s
      → 0 < a
      → fee ≤ 10_000
      → quote_amount_out r s a fee ≡ ok (a * (10_000 - fee) * s / (r * 10_000 + a * (10_000 - fee)))
  unfolding quote_amount_out
  quote_total pr ps pa pf = let (x, y) = scaled_lt in ground arith
