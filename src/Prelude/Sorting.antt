-- ===== src/Prelude/Sorting.antt =====
-- The stable sort of the standard library (`sort_by_key`), as an insertion sort by a test that says
-- when the first value may stand before the second.
use mathlib.Core.Bool.{Bool, true, false}
use Prim.Native.Nat.{suc}
use mathlib.Core.Path.{◌≡◌, refl, sym, subst, ap, ◌∙◌}
use mathlib.Core.Logic.{inl, inr}
use mathlib.Core.List.{List, [], ◌∷◌, Perm, Memᴰ}
use mathlib.Core.List.Memᴰ
use mathlib.Core.List.Perm
use dexmoney.Prelude.Tests.{if◌then◌else◌, Bool-cases}
use dexmoney.Prelude.Lists.{All, Pairwise, length}

module _ {ℓ} {A : Type ℓ} (le : A → A → Bool) where
  unfoldable pub insert_sorted : A → List A → List A
  insert_sorted a [] = a ∷ []
  insert_sorted a (x ∷ xs) =
      let rest = insert_sorted a xs in if le a x then a ∷ x ∷ xs else x ∷ rest

  unfoldable pub sort : List A → List A
  unfolding insert_sorted
  sort [] = []
  sort (x ∷ xs) = insert_sorted x (sort xs)

  insert_sorted-perm : (a : A) (xs : List A) → Perm (insert_sorted a xs) (a ∷ xs)
  unfolding insert_sorted
  insert_sorted-perm a [] = Perm.refl (a ∷ [])
  insert_sorted-perm a (x ∷ xs) = elim (Bool-cases (le a x)) [
    | inl e ↦ rw e (Perm.refl (a ∷ x ∷ xs))
    | inr e ↦ rw e (Perm.trans (Perm.cons x (insert_sorted-perm a xs)) (Perm.swap a x xs))
  ]

  -- The sorted list holds the same elements.
  pub sort-perm : (xs : List A) → Perm (sort xs) xs
  unfolding sort
  sort-perm [] = Perm.refl []
  sort-perm (x ∷ xs) = Perm.trans (insert_sorted-perm x (sort xs)) (Perm.cons x (sort-perm xs))

  length-insert_sorted : (a : A) (xs : List A) → length (insert_sorted a xs) ≡ suc (length xs)
  unfolding insert_sorted
  length-insert_sorted a [] = refl
  length-insert_sorted a (x ∷ xs) = elim (Bool-cases (le a x)) [
    | inl e ↦ rw e refl
    | inr e ↦ rw e (ap suc (length-insert_sorted a xs))
  ]

  pub length-sort : (xs : List A) → length (sort xs) ≡ length xs
  unfolding sort
  length-sort [] = refl
  length-sort (x ∷ xs) = length-insert_sorted x (sort xs) ∙ ap suc (length-sort xs)

  insert_sorted-mem : (a : A) (xs : List A) {b : A} → Memᴰ b (insert_sorted a xs) → Memᴰ b (a ∷ xs)
  unfolding insert_sorted
  insert_sorted-mem a [] m = m
  insert_sorted-mem a (x ∷ xs) m = elim (Bool-cases (le a x)) [
    | inl e ↦ rw e at m
    | inr e ↦ elim (Memᴰ.cases_cons (rw e at m)) [
      | inl here ↦ Memᴰ.tail (Memᴰ.head here)
      | inr rest ↦ elim (Memᴰ.cases_cons (insert_sorted-mem a xs rest)) [
        | inl here ↦ Memᴰ.head here
        | inr rest' ↦ Memᴰ.tail (Memᴰ.tail rest')
      ]
    ]
  ]

  -- What stands in the sorted list stood in the list.
  pub sort-mem : (xs : List A) {b : A} → Memᴰ b (sort xs) → Memᴰ b xs
  unfolding sort
  sort-mem [] m = m
  sort-mem (x ∷ xs) m = elim (Memᴰ.cases_cons (insert_sorted-mem x (sort xs) m)) [
    | inl here ↦ Memᴰ.head here
    | inr rest ↦ Memᴰ.tail (sort-mem xs rest)
  ]

  mem-insert_sorted : (a : A) (xs : List A) {b : A} → Memᴰ b (a ∷ xs) → Memᴰ b (insert_sorted a xs)
  unfolding insert_sorted
  mem-insert_sorted a [] m = m
  mem-insert_sorted a (x ∷ xs) m = elim (Bool-cases (le a x)) [
    | inl e ↦ rw e m
    | inr e ↦ rw e (elim (Memᴰ.cases_cons m) [
      | inl here ↦ Memᴰ.tail (mem-insert_sorted a xs (Memᴰ.head here))
      | inr rest ↦ elim (Memᴰ.cases_cons rest) [
        | inl here ↦ Memᴰ.head here
        | inr rest' ↦ Memᴰ.tail (mem-insert_sorted a xs (Memᴰ.tail rest'))
      ]
    ])
  ]

  -- What stood in the list stands in the sorted list.
  pub mem-sort : (xs : List A) {b : A} → Memᴰ b xs → Memᴰ b (sort xs)
  unfolding sort
  mem-sort [] m = m
  mem-sort (x ∷ xs) m = elim (Memᴰ.cases_cons m) [
    | inl here ↦ mem-insert_sorted x (sort xs) (Memᴰ.head here)
    | inr rest ↦ mem-insert_sorted x (sort xs) (Memᴰ.tail (mem-sort xs rest))
  ]

  -- Sorting keeps a symmetric relation between any two elements.
  module _ (R : A → A → Type 0) (symmetric : (a b : A) → R a b → R b a) where
    insert_sorted-Pairwise :
        (a : A) (xs : List A)
        → ((y : A) → Memᴰ y xs → R a y)
        → Pairwise R xs
        → Pairwise R (insert_sorted a xs)
    unfolding insert_sorted
    insert_sorted-Pairwise a [] new h = (new, tt)
    insert_sorted-Pairwise a (x ∷ xs) new (h, hs) = elim (Bool-cases (le a x)) [
      | inl e ↦ rw e (new, (h, hs))
      | inr e ↦ rw e (
        λ y m. elim (Memᴰ.cases_cons (insert_sorted-mem a xs m)) [
          | inl here ↦ subst (R x) (sym here) (symmetric a x (new x (Memᴰ.head refl)))
          | inr rest ↦ h y rest
        ],
        insert_sorted-Pairwise a xs (λ y m. new y (Memᴰ.tail m)) hs,
      )
    ]

    pub sort-Pairwise : (xs : List A) → Pairwise R xs → Pairwise R (sort xs)
    unfolding sort
    sort-Pairwise [] h = tt
    sort-Pairwise (x ∷ xs) (h, hs) =
        insert_sorted-Pairwise x (sort xs) (λ y m. h y (sort-mem xs m)) (sort-Pairwise xs hs)

  -- Each element may stand before all that follow it.
  abbrev pub IsSorted : List A → Type ℓ
  IsSorted [] = Unit
  IsSorted (x ∷ xs) = All (λ y. le x y ≡ true) xs × IsSorted xs

  module _ (total : (a b : A) → le a b ≡ false → le b a ≡ true)
      (trans : (a b c : A) → le a b ≡ true → le b c ≡ true → le a c ≡ true) where
    All-trans :
        (a x : A) (xs : List A)
        → le a x ≡ true
        → All (λ y. le x y ≡ true) xs
        → All (λ y. le a y ≡ true) xs
    All-trans a x [] e h = tt
    All-trans a x (y ∷ ys) e (h, hs) = (trans a x y e h, All-trans a x ys e hs)

    insert_sorted-All :
        (P : A → Type 0) (a : A) (xs : List A) → P a → All P xs → All P (insert_sorted a xs)
    unfolding insert_sorted
    insert_sorted-All P a [] p h = (p, tt)
    insert_sorted-All P a (x ∷ xs) p (h, hs) = elim (Bool-cases (le a x)) [
      | inl e ↦ rw e (p, (h, hs))
      | inr e ↦ rw e (h, insert_sorted-All P a xs p hs)
    ]

    insert_sorted-IsSorted : (a : A) (xs : List A) → IsSorted xs → IsSorted (insert_sorted a xs)
    unfolding insert_sorted
    insert_sorted-IsSorted a [] h = (tt, tt)
    insert_sorted-IsSorted a (x ∷ xs) (h, hs) = elim (Bool-cases (le a x)) [
      | inl e ↦ rw e ((e, All-trans a x xs e h), (h, hs))
      | inr e ↦ rw e (
        insert_sorted-All (λ y. le x y ≡ true) a xs (total a x e) h,
        insert_sorted-IsSorted a xs hs,
      )
    ]

    pub sort-IsSorted : (xs : List A) → IsSorted (sort xs)
    unfolding sort
    sort-IsSorted [] = tt
    sort-IsSorted (x ∷ xs) = insert_sorted-IsSorted x (sort xs) (sort-IsSorted xs)
