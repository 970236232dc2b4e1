-- ===== src/Execution/Candidates/Drain.antt =====
-- Popping candidates ends, and brings fresh ones.
use Prim.Native.String.{String}
use dexmoney.Prelude.{
  ℕ, zero, suc, ◌+◌, ◌-◌, ◌≤◌, ◌<◌, Bool, true, false, Option, none, some, Result, ok, err, List,
  [], ◌∷◌, ◌++◌, ltb, ◌==◌, ◌≡◌, refl, ◌∙◌, min, ap, sym, not, leb, ◌&&◌, ◌⊎◌, append-nil,
  append_assoc, retain, retain-append, retain-All, inl, inr, if◌then◌else◌, length, length-append,
  All, All-mem, mem-All, Bool-cases, ltb→lt, arith,
}
use dexmoney.Prelude.Sorting.{sort, sort-mem, sort-IsSorted, IsSorted, length-sort}
use dexmoney.Common.Opportunity.{Candidate, is_expired}
use dexmoney.Execution.Candidates.{
  Drained, nothing_drained, by_profit, drain_candidate, drain_popped, after_pop, pop_limit, drain,
  sort_drained, after_prune, pop_fresh_candidates, max_candidate_drain_per_cycle,
  max_expired_candidate_drain_per_cycle,
}

by_profit_total : (a b : Candidate) → by_profit a b ≡ false → by_profit b a ≡ true
unfolding by_profit
by_profit_total a b h = ground arith

by_profit_trans :
    (a b c : Candidate) → by_profit a b ≡ true → by_profit b c ≡ true → by_profit a c ≡ true
unfolding by_profit
by_profit_trans a b c h k = ground arith

pub sort-by_profit : (candidates : List Candidate) → IsSorted by_profit (sort by_profit candidates)
sort-by_profit candidates = sort-IsSorted by_profit by_profit_total by_profit_trans candidates

-- A pop returns no more candidates than asked for.
abbrev pub AtMost : ℕ → Result String (List Candidate) → Type 0
AtMost limit (err e) = Unit
AtMost limit (ok candidates) = length candidates ≤ limit

module _ (now current_block max_lag_blocks : ℕ) where
  -- Alive at the time, and no more blocks behind than allowed.
  abbrev pub IsFresh : Candidate → Type 0
  IsFresh c = (is_expired c now ≡ false) × (current_block - c.block_number ≤ max_lag_blocks)

  -- The same as a test.
  abbrev pub is_fresh : Candidate → Bool
  is_fresh c = not (is_expired c now) && leb (current_block - c.block_number) max_lag_blocks

  is_fresh-IsFresh : (c : Candidate) → is_fresh c ≡ true → IsFresh c
  is_fresh-IsFresh c h = elim (Bool-cases (is_expired c now)) [
    | inl e ↦ cc (rw e at h)
    | inr e ↦ (e, fresh_lag (rw e at h))
  ]
    where
      fresh_lag :
          leb (current_block - c.block_number) max_lag_blocks ≡ true
          → current_block - c.block_number ≤ max_lag_blocks
      fresh_lag h = ground arith

  drain_popped-popped :
      (cs : List Candidate) (d : Drained)
      → (drain_popped now current_block max_lag_blocks cs d).popped ≡ d.popped + length cs
  unfolding drain_popped drain_candidate
  drain_popped-popped [] d = omega arith
  drain_popped-popped (c ∷ cs) d =
      drain_popped-popped cs (drain_candidate now current_block max_lag_blocks c d) ∙ ground arith

  drain_candidate-length :
      (c : Candidate) (d : Drained)
      → length (drain_candidate now current_block max_lag_blocks c d).candidates
        ≤ length d.candidates + 1
  unfolding drain_candidate
  drain_candidate-length c d = ground (arith, length-append d.candidates (c ∷ []))

  drain_popped-length :
      (cs : List Candidate) (d : Drained)
      → length (drain_popped now current_block max_lag_blocks cs d).candidates
        ≤ length d.candidates + length cs
  unfolding drain_popped
  drain_popped-length [] d = omega arith
  drain_popped-length (c ∷ cs) d = omega (
    arith,
    drain_popped-length cs (drain_candidate now current_block max_lag_blocks c d),
    drain_candidate-length c d,
  )

  -- What is kept of the candidates that were popped are the fresh ones, in their order.
  drain_candidate-fresh :
      (c : Candidate) (d : Drained)
      → (drain_candidate now current_block max_lag_blocks c d).candidates
        ≡ d.candidates ++ retain is_fresh (c ∷ [])
  unfolding drain_candidate
  drain_candidate-fresh c d = elim (Bool-cases (is_expired c now)) [
    | inl e ↦ rw e (append-nil d.candidates)
    | inr e ↦ elim (Bool-cases (ltb max_lag_blocks (current_block - c.block_number))) [
      | inl l ↦
          let old : leb (current_block - c.block_number) max_lag_blocks ≡ false = ground arith in
          rw (e, l, old) (append-nil d.candidates)
      | inr l ↦
          let young : leb (current_block - c.block_number) max_lag_blocks ≡ true = ground arith in
          rw (e, l, young) refl
    ]
  ]

  drain_popped-fresh :
      (cs : List Candidate) (d : Drained)
      → (drain_popped now current_block max_lag_blocks cs d).candidates
        ≡ d.candidates ++ retain is_fresh cs
  unfolding drain_popped
  drain_popped-fresh [] d = append-nil d.candidates
  drain_popped-fresh (c ∷ cs) d =
      drain_popped-fresh cs (drain_candidate now current_block max_lag_blocks c d)
      ∙ ap (λ l. l ++ retain is_fresh cs) (drain_candidate-fresh c d)
      ∙ append_assoc d.candidates (retain is_fresh (c ∷ [])) (retain is_fresh cs)
      ∙ ap (λ l. d.candidates ++ l) (sym (retain-append is_fresh (c ∷ []) cs))

  module _ {Store : Type 0}
      (pop_candidates : ℕ → Store → Result String (List Candidate) × Store) where
    -- The candidates that pops of a store brought, one pop after the other.
    pub data Pops (from : Store) : List Candidate → Store → Type 0 where
      not_popped : Pops from [] from
      popped :
          (limit : ℕ) (brought cs : List Candidate) (s s' : Store)
          → Pops from brought s
          → pop_candidates limit s ≡ (ok cs, s')
          → Pops from (brought ++ cs) s'

    -- Why popping stops: there are enough fresh candidates, it popped enough, or the store had none left.
    abbrev pub Stops : List Candidate → Store → Type 0
    Stops brought s =
        (max_candidate_drain_per_cycle ≤ length (retain is_fresh brought))
        ⊎ (max_expired_candidate_drain_per_cycle ≤ length brought)
        ⊎ (limit : ℕ) × (s' : Store) × (0 < limit) × (pop_candidates limit s' ≡ (ok [], s))

    -- What a cycle gets, from the answer to its pruning: the error of the pruning or of a pop, with the store as
    -- it was left; or the fresh ones of all that were popped, sorted.
    pub data Served (pruned : Result String ℕ × Store)
        : Result String (List Candidate) × Store → Type 0 where
      not_pruned : (e : String) (s : Store) → pruned ≡ (err e, s) → Served pruned (err e, s)
      broke_off :
          (n limit : ℕ) (brought : List Candidate) (e : String) (s s' s'' : Store)
          → pruned ≡ (ok n, s)
          → Pops s brought s'
          → pop_candidates limit s' ≡ (err e, s'')
          → Served pruned (err e, s'')
      served :
          (n : ℕ) (brought : List Candidate) (s s' : Store)
          → pruned ≡ (ok n, s)
          → Pops s brought s'
          → Stops brought s'
          → length (retain is_fresh brought) ≤ max_candidate_drain_per_cycle
          → Served pruned (ok (sort by_profit (retain is_fresh brought)), s')

    -- A list of fresh candidates, no more than 128, the more profitable first; or an error.
    abbrev pub Fresh : Result String (List Candidate) × Store → Type 0
    Fresh (err e, store) = Unit
    Fresh (ok candidates, store) =
        All IsFresh candidates
        × (length candidates ≤ max_candidate_drain_per_cycle)
        × IsSorted by_profit candidates

    -- Where the loop stands.
    record Kept (from : Store) (d : Drained) (s : Store) : Type 0 where
      brought : List Candidate
      pops : Pops from brought s
      fresh : d.candidates ≡ retain is_fresh brought
      counted : d.popped ≡ length brought
      count : length d.candidates ≤ max_candidate_drain_per_cycle

    -- How it ends.
    abbrev Ends : Store → Option (Result String Drained × Store) → Type 0
    Ends from none = ⊥
    Ends from (some (err e, s)) =
        (limit : ℕ) × (brought : List Candidate) × (s' : Store) × Pops from brought s'
        × (pop_candidates limit s' ≡ (err e, s))
    Ends from (some (ok d, s)) = (kept : Kept from d s) × Stops kept.brought s

    Ends-if :
        (from : Store) (test : Bool) (a b : Option (Result String Drained × Store))
        → (test ≡ true → Ends from a)
        → (test ≡ false → Ends from b)
        → Ends from (if test then a else b)
    Ends-if from true a b h k = h refl
    Ends-if from false a b h k = k refl

    module _ (law : (limit : ℕ) (store : Store) → AtMost limit (pop_candidates limit store).0) where
      after_pop-Ends :
          (from : Store) (fuel : ℕ) (d : Drained) (s : Store)
          (answer : Result String (List Candidate) × Store)
          → pop_candidates (pop_limit now current_block max_lag_blocks Store pop_candidates d) s
            ≡ answer
          → ((d' : Drained) (s' : Store)
              → max_expired_candidate_drain_per_cycle - d'.popped < fuel
              → Kept from d' s'
              → Ends from (drain now current_block max_lag_blocks Store pop_candidates fuel d' s'))
          → AtMost (pop_limit now current_block max_lag_blocks Store pop_candidates d) answer.0
          → 0 < pop_limit now current_block max_lag_blocks Store pop_candidates d
          → d.popped < max_expired_candidate_drain_per_cycle
          → max_expired_candidate_drain_per_cycle - d.popped < suc fuel
          → Kept from d s
          → Ends from (
              after_pop now current_block max_lag_blocks Store pop_candidates
                (λ d' s'. drain now current_block max_lag_blocks Store pop_candidates fuel d' s')
                d
                answer)
      unfolding after_pop
      after_pop-Ends from fuel d s (err e, s') same ih most some_asked left enough kept =
          (_, kept.brought, s, kept.pops, same)
      after_pop-Ends from fuel d s (ok [], s') same ih most some_asked left enough kept = (
        record {
          brought = kept.brought ++ [];
          pops = popped _ kept.brought [] s s' kept.pops same;
          fresh = kept.fresh ∙ ap (λ l. retain is_fresh l) (append-nil kept.brought);
          counted = kept.counted ∙ ap (λ l. length l) (append-nil kept.brought);
          count = kept.count;
        },
        inr (inr (_, s, some_asked, same)),
      )
      after_pop-Ends from fuel d s (ok (c ∷ cs), s') same ih most some_asked left enough kept =
          ih (drain_popped now current_block max_lag_blocks (c ∷ cs) d) s'
            (omega (arith, drain_popped-popped (c ∷ cs) d))
            (record {
              brought = kept.brought ++ (c ∷ cs);
              pops = popped _ kept.brought (c ∷ cs) s s' kept.pops same;
              fresh =
                  drain_popped-fresh (c ∷ cs) d
                  ∙ ap (λ l. l ++ retain is_fresh (c ∷ cs)) kept.fresh
                  ∙ sym (retain-append is_fresh kept.brought (c ∷ cs));
              counted = omega (
                arith,
                drain_popped-popped (c ∷ cs) d,
                kept.counted,
                length-append kept.brought (c ∷ cs),
              );
              count = omega (arith, drain_popped-length (c ∷ cs) d, kept.count);
            })

      drain-Ends :
          (from : Store) (fuel : ℕ) (d : Drained) (s : Store)
          → max_expired_candidate_drain_per_cycle - d.popped < fuel
          → Kept from d s
          → Ends from (drain now current_block max_lag_blocks Store pop_candidates fuel d s)
      unfolding drain
      drain-Ends from zero d s enough kept = absurd (omega arith)
      drain-Ends from (suc fuel) d s enough kept =
          elim (Bool-cases (ltb (length d.candidates) max_candidate_drain_per_cycle)) [
            | inr a ↦ rw a (kept, inl (rw kept.fresh at (full _ _ a)))
            | inl a ↦ elim (Bool-cases (ltb d.popped max_expired_candidate_drain_per_cycle)) [
              | inr b ↦ rw (a, b) (kept, inr (inl (rw kept.counted at (full _ _ b))))
              | inl b ↦
                  rw (a, b)
                    (Ends-if from
                      (pop_limit now current_block max_lag_blocks Store pop_candidates d == 0) _ _
                      (λ z. absurd (none_asked _ _ a b z))
                      (λ z.
                        after_pop-Ends from fuel d s (pop_candidates _ s) refl
                          (drain-Ends from fuel) (law _ s) (some_asked _ z) (ltb→lt _ _ b) enough
                          kept))
            ]
          ]
        where
          full : (n m : ℕ) → ltb n m ≡ false → m ≤ n
          full n m h = ground arith

          some_asked : (n : ℕ) → (n == 0) ≡ false → 0 < n
          some_asked n h = ground arith

          none_asked :
              (p n : ℕ)
              → ltb n max_candidate_drain_per_cycle ≡ true
              → ltb p max_expired_candidate_drain_per_cycle ≡ true
              → (min (min 128 (2_048 - p)) (128 - n) == 0) ≡ true
              → ⊥
          none_asked p n h k z = ground arith

      sort_drained-Served :
          (n : ℕ) (s : Store) (pruned : Result String ℕ × Store)
          → pruned ≡ (ok n, s)
          → (r : Option (Result String Drained × Store)) → Ends s r
          → (answer : Result String (List Candidate) × Store) × (sort_drained now current_block
                max_lag_blocks Store pop_candidates r
              ≡ some answer)
            × Served pruned answer
            × Fresh answer
      unfolding sort_drained
      sort_drained-Served n s pruned same none h = absurd h
      sort_drained-Served n s pruned same (some (err e, s'')) (limit, brought, s', pops, broke) =
          ((err e, s''), refl, broke_off n limit brought e s s' s'' same pops broke, tt)
      sort_drained-Served n s pruned same (some (ok d, s')) (kept, stops) =
          let count = rw kept.fresh at kept.count in
          let found = retain is_fresh kept.brought in
          (
            (ok (sort by_profit found), s'),
            ap (λ l. some (ok (sort by_profit l), s')) kept.fresh,
            served n kept.brought s s' same kept.pops stops count,
            (
              mem-All IsFresh _ (λ c m. is_fresh-IsFresh c (
                  All-mem (λ x. is_fresh x ≡ true) found (retain-All is_fresh kept.brought)
                    (sort-mem by_profit found m))),
              rw (length-sort by_profit found) count,
              sort-by_profit found,
            ),
          )

      after_prune-Served :
          (pruned : Result String ℕ × Store)
          → (answer : Result String (List Candidate) × Store) × (after_prune now current_block
                max_lag_blocks Store pop_candidates pruned
              ≡ some answer)
            × Served pruned answer
            × Fresh answer
      unfolding after_prune
      after_prune-Served (err e, s) = ((err e, s), refl, not_pruned e s refl, tt)
      after_prune-Served (ok n, s) =
          sort_drained-Served n s (ok n, s) refl _
            (drain-Ends s (suc max_expired_candidate_drain_per_cycle) nothing_drained s
              (omega arith)
              (record {
                brought = [];
                pops = not_popped;
                fresh = refl;
                counted = refl;
                count = omega arith;
              }))

      -- Where the store never answers a pop with more candidates than asked for, popping comes to its end
      -- within its rounds, whatever the store holds and whenever it fails. An error is the one that the pruning
      -- or a pop answered. Otherwise the result is the fresh ones of all that the pops brought, neither expired
      -- nor too many blocks behind, at most 128 and the more profitable first, and the pops went on until there
      -- were 128 of them, 2,048 had been popped, or the store had none left.
      pub pop_fresh_candidates-Served :
          (prune : ℕ → Store → Result String ℕ × Store) (store : Store)
          → (answer : Result String (List Candidate) × Store) × (pop_fresh_candidates now
                current_block max_lag_blocks Store pop_candidates prune store
              ≡ some answer)
            × Served (prune (current_block - max_lag_blocks) store) answer
            × Fresh answer
      unfolding pop_fresh_candidates
      pop_fresh_candidates-Served prune store =
          after_prune-Served (prune (current_block - max_lag_blocks) store)
