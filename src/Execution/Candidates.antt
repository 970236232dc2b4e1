-- ===== src/Execution/Candidates.antt =====
-- crates/execution-manager/src/main.rs: the candidates that a cycle of the service works on, popped from the
-- store, `pop_fresh_candidates`, and coalesced by their key. A map from keys to candidates is the list of
-- its candidates; what the log shows of block lags is left out.
pub mod Drain
pub mod Coalesce
use Prim.Native.String.{String}
use text.Mathlib.Text.{◌==◌ as ◌===◌}
use dexmoney.Prelude.{
  ℕ, zero, suc, ◌+◌, ◌-◌, Bool, true, false, ◌&&◌, Option, none, some, Result, ok, err, List, [],
  ◌∷◌, ◌++◌, ltb, leb, ◌==◌, if◌then◌else◌, min, any, retain, length,
}
use dexmoney.Prelude.Sorting.{sort}
use dexmoney.Common.Pool.{Address}
use dexmoney.Common.Opportunity.{Candidate, is_expired}

abbrev pub max_expired_candidate_drain_per_cycle : ℕ
max_expired_candidate_drain_per_cycle = 2_048

abbrev pub max_candidate_drain_per_cycle : ℕ
max_candidate_drain_per_cycle = 128

abbrev pub candidate_pop_chunk_size : ℕ
candidate_pop_chunk_size = 128

pub record CandidateDedupKey : Type 0 where
  pub block_number : ℕ
  pub path_name : String
  pub token_in : Address
  pub amount_in : ℕ

unfoldable pub from_candidate : Candidate → CandidateDedupKey
from_candidate candidate = record {
  block_number = candidate.block_number;
  path_name = candidate.path.name;
  token_in = candidate.token_in;
  amount_in = candidate.amount_in;
}

unfoldable pub same_key : CandidateDedupKey → CandidateDedupKey → Bool
same_key a b =
    a.block_number == b.block_number
    && a.path_name === b.path_name
    && a.token_in == b.token_in
    && a.amount_in == b.amount_in

-- `SubmittedCandidateKeys`, the set of keys as a list
unfoldable pub contains_candidate : List CandidateDedupKey → Candidate → Bool
contains_candidate keys candidate = any (λ key. same_key key (from_candidate candidate)) keys

-- Whether the key was new, too.
unfoldable pub insert_candidate : List CandidateDedupKey → Candidate → List CandidateDedupKey × Bool
unfolding contains_candidate
insert_candidate keys candidate =
    if contains_candidate keys candidate
    then (keys, false)
    else (keys ++ from_candidate candidate ∷ [], true)

unfoldable pub prune_before : List CandidateDedupKey → ℕ → List CandidateDedupKey
prune_before keys min_block_number = retain (λ key. leb min_block_number key.block_number) keys

-- The better candidate of a key is kept, the earlier where they are equal; true if there was one.
unfoldable pub keep_best : Candidate → List Candidate → List Candidate × Bool
keep_best candidate [] = (candidate ∷ [], false)
keep_best candidate (best ∷ rest) =
    let behind = keep_best candidate rest in
    if same_key (from_candidate best) (from_candidate candidate)
    then (
      (if ltb best.expected_profit candidate.expected_profit then candidate else best) ∷ rest,
      true,
    )
    else (best ∷ behind.0, behind.1)

unfoldable pub coalesce : List Candidate → List Candidate → ℕ → List Candidate × ℕ
coalesce [] best_by_key coalesced = (best_by_key, coalesced)
coalesce (candidate ∷ candidates) best_by_key coalesced =
    let kept = keep_best candidate best_by_key in
    coalesce candidates kept.0 (if kept.1 then coalesced + 1 else coalesced)

-- The greater expected profit stands first.
unfoldable pub by_profit : Candidate → Candidate → Bool
by_profit a b = leb b.expected_profit a.expected_profit

unfoldable pub coalesce_candidates_by_execution_key : List Candidate → List Candidate × ℕ
coalesce_candidates_by_execution_key candidates =
    let (best, coalesced) = coalesce candidates [] 0 in (sort by_profit best, coalesced)

pub record Drained : Type 0 where
  pub candidates : List Candidate
  pub popped : ℕ
  pub expired : ℕ
  pub stale_by_block : ℕ

abbrev pub nothing_drained : Drained
nothing_drained = record { candidates = []; popped = 0; expired = 0; stale_by_block = 0 }

module _ (now current_block max_lag_blocks : ℕ) where
  -- A round of the loop over popped candidates.
  unfoldable pub drain_candidate : Candidate → Drained → Drained
  drain_candidate candidate d =
      if is_expired candidate now
      then record d { popped = d.popped + 1; expired = d.expired + 1 }
      else if ltb max_lag_blocks (current_block - candidate.block_number)
      then record d { popped = d.popped + 1; stale_by_block = d.stale_by_block + 1 }
      else record d { popped = d.popped + 1; candidates = d.candidates ++ candidate ∷ [] }

  unfoldable pub drain_popped : List Candidate → Drained → Drained
  drain_popped [] d = d
  drain_popped (candidate ∷ candidates) d = drain_popped candidates (drain_candidate candidate d)

  -- The store is a parameter: it answers a pop of so many candidates, and changes.
  module _ (Store : Type 0)
      (pop_candidates : ℕ → Store → Result String (List Candidate) × Store) where
    abbrev pub Popped : Type 0
    Popped = Result String (List Candidate) × Store

    -- What follows a pop: the loop ends on an error or on no candidates.
    unfoldable pub after_pop :
        (Drained → Store → Option (Result String Drained × Store))
        → Drained
        → Popped
        → Option (Result String Drained × Store)
    after_pop go d (err e, store) = some (err e, store)
    after_pop go d (ok [], store) = some (ok d, store)
    after_pop go d (ok (candidate ∷ candidates), store) =
        go (drain_popped (candidate ∷ candidates) d) store

    abbrev pub pop_limit : Drained → ℕ
    pop_limit d =
        min (min candidate_pop_chunk_size (max_expired_candidate_drain_per_cycle - d.popped))
          (max_candidate_drain_per_cycle - length d.candidates)

    -- The loop, with fuel for its rounds; none if the fuel runs out.
    unfoldable pub drain : ℕ → Drained → Store → Option (Result String Drained × Store)
    unfolding after_pop
    drain zero d store = none
    drain (suc fuel) d store =
        let next =
          after_pop (λ d' store'. drain fuel d' store') d (pop_candidates (pop_limit d) store) in
        if ltb (length d.candidates) max_candidate_drain_per_cycle
          && ltb d.popped max_expired_candidate_drain_per_cycle
        then (if pop_limit d == 0 then some (ok d, store) else next)
        else some (ok d, store)

    unfoldable pub sort_drained :
        Option (Result String Drained × Store) → Option (Result String (List Candidate) × Store)
    sort_drained none = none
    sort_drained (some (err e, store)) = some (err e, store)
    sort_drained (some (ok d, store)) = some (ok (sort by_profit d.candidates), store)

    -- The pruning of the store before the loop may fail, and changes the store.
    unfoldable pub after_prune :
        Result String ℕ × Store → Option (Result String (List Candidate) × Store)
    unfolding drain sort_drained
    after_prune (err e, store) = some (err e, store)
    after_prune (ok pruned, store) =
        sort_drained (drain (suc max_expired_candidate_drain_per_cycle) nothing_drained store)

    unfoldable pub pop_fresh_candidates :
        (ℕ → Store → Result String ℕ × Store)
        → Store
        → Option (Result String (List Candidate) × Store)
    unfolding after_prune
    pop_fresh_candidates prune_candidates_before_block store =
        after_prune (prune_candidates_before_block (current_block - max_lag_blocks) store)
