-- ===== src/Searcher/Risk.antt =====
-- crates/searcher/src/risk.rs: the gate that a candidate passes before it is published.
pub mod Gate
use Prim.Native.String.{String}
use text.Mathlib.Text.{◌==◌ as ◌===◌}
use dexmoney.Prelude.{ℕ, Bool, ◌&&◌, not, ok, err, List, any, ltb, ◌==◌, if◌then◌else◌}
use dexmoney.Common.Errors.{risk_gate, ArbResult}
use dexmoney.Common.Pool.{Address}
use dexmoney.Common.Opportunity.{Candidate}
use dexmoney.Dex.V3.{is_empty}

unfoldable pub required_profit : Candidate → ℕ → ℕ
required_profit candidate min_expected_profit =
    if candidate.min_profit == 0 then min_expected_profit else candidate.min_profit

-- `available_pools` is the set's membership test.
unfoldable pub validate_candidate :
    Candidate → (Address → Bool) → ℕ → ℕ → List String → ArbResult (Unit {0})
validate_candidate candidate available_pools min_expected_profit max_price_impact_bps
      whitelist_paths =
    if ltb candidate.expected_profit (required_profit candidate min_expected_profit)
    then err (risk_gate "expected_profit_below_threshold")
    else if ltb max_price_impact_bps candidate.price_impact_bps
    then err (risk_gate "price_impact_too_high")
    else if not (is_empty whitelist_paths)
        && not (any (λ name. name === candidate.path.name) whitelist_paths)
    then err (risk_gate "path_not_whitelisted")
    else if any (λ step. not (available_pools step.pool)) candidate.path.steps
    then err (risk_gate "pool_state_missing")
    else ok tt
