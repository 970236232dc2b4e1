-- ===== src/Tests/Candidates.antt =====
-- Candidates popped from a store that is a list, and coalesced.
use Prim.Native.String.{String}
use mathlib.Core.List.{Memᴰ}
use dexmoney.Prelude.{
  Pairwise, ℕ, ◌+◌, ◌≡◌, ok, Result, some, List, [], ◌∷◌, take, drop, length, length-take,
}
use dexmoney.Prelude.Sorting.{IsSorted}
use dexmoney.Common.Opportunity.{Candidate}
use dexmoney.Execution.Candidates.{
  pop_fresh_candidates, coalesce_candidates_by_execution_key, by_profit,
}
use dexmoney.Execution.Candidates.Drain.{AtMost, Fresh, Served, pop_fresh_candidates-Served}
use dexmoney.Execution.Candidates.Coalesce.{Covers, Apart, coalesce_candidates-Covers}
use dexmoney.Tests.Searches.{candidate}

abbrev late : Candidate
late = record candidate { expires_at = 11 }

abbrev better : Candidate
better = record candidate { id = 2; expected_profit = 940 }

abbrev waiting : List Candidate
waiting = candidate ∷ late ∷ better ∷ []

abbrev pop : ℕ → List Candidate → Result String (List Candidate) × List Candidate
pop limit store = (ok (take limit store), drop limit store)

abbrev prune : ℕ → List Candidate → Result String ℕ × List Candidate
prune first_block store = (ok 0, store)

pop-AtMost : (limit : ℕ) (store : List Candidate) → AtMost limit (pop limit store).0
pop-AtMost limit store = length-take limit store

pop_fresh_candidates-Served_example :
    (answer : Result String (List Candidate) × List Candidate) × (pop_fresh_candidates 15 6 2
        (List Candidate)
        pop
        prune
        waiting
      ≡ some answer)
    × Served 15 6 2 pop (prune 4 waiting) answer
    × Fresh 15 6 2 pop answer
pop_fresh_candidates-Served_example =
    pop_fresh_candidates-Served 15 6 2 pop pop-AtMost prune waiting

coalesce_candidates-Covers_example :
    ((c : Candidate) → Memᴰ c waiting → Covers (coalesce_candidates_by_execution_key waiting).0 c)
    × ((k : Candidate) → Memᴰ k (coalesce_candidates_by_execution_key waiting).0 → Memᴰ k waiting)
    × Pairwise Apart (coalesce_candidates_by_execution_key waiting).0
    × IsSorted by_profit (coalesce_candidates_by_execution_key waiting).0
    × (length (coalesce_candidates_by_execution_key waiting).0
          + (coalesce_candidates_by_execution_key waiting).1
        ≡ length waiting)
coalesce_candidates-Covers_example = coalesce_candidates-Covers waiting
