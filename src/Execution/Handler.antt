-- ===== src/Execution/Handler.antt =====
-- What the handlers of crates/execution-manager/src/main.rs share: the lane that they change, what they
-- have sent to the recorder and to the store of lane states, and the answers of the services they
-- await. A handler runs on a desk and ends with a value or an error; `?` passes the error on.
use Prim.Native.String.{String}
use mathlib.Core.Path.{subst}
use dexmoney.Prelude.{
  ok_injective, ℕ, Bool, true, false, if◌then◌else◌, Option, none, some, Result, ok, err, List, ◌∷◌,
  ◌≡◌, refl,
}
use dexmoney.Common.Pool.{Address}
use dexmoney.Common.Opportunity.{Uuid}
use dexmoney.Common.Transaction.{B256, TxResult, EoaLaneState}
use dexmoney.Execution.Fees.{Eip1559FeeSuggestion}

-- crates/chain/src/provider.rs
pub record TxReceipt : Type 0 where
  pub tx_hash : B256
  pub success : Bool
  pub gas_used : Option ℕ
  pub effective_gas_price : Option ℕ
  pub block_number : Option ℕ
  pub raw : String

-- crates/common/src/config.rs: the settings that the handlers read. The smallest priority fee is the
-- parsed `execution_min_priority_fee_wei`, 0 where it is not set.
pub record Settings : Type 0 where
  pub executor_contract : Option Address
  pub execution_min_priority_fee_wei : ℕ
  pub execution_priority_fee_multiplier_bps : ℕ
  pub execution_max_fee_multiplier_bps : ℕ
  pub execution_pending_replacement_blocks : ℕ
  pub execution_replacement_fee_bump_bps : ℕ
  pub execution_max_replacements : ℕ

-- The services that a handler awaits, each with its answer to the one call that a run makes of it.
pub record Services : Type 0 where
  pub get_transaction_receipt : B256 → Result String (Option TxReceipt)
  pub confirmed_transaction_count : Result String ℕ
  pub pending_transaction_count : Result String ℕ
  pub get_balance : Result String ℕ
  -- the block read before and the one read for a replacement
  pub get_block_number : Result String ℕ
  pub submission_block_number : Result String ℕ
  pub suggested_eip1559_fee_details : Result String Eip1559FeeSuggestion
  -- signing and sending: contract, calldata, nonce, gas limit, fee and priority fee
  pub sign_and_send : Address → List ℕ → ℕ → ℕ → ℕ → ℕ → Result String B256
  pub record_transaction : TxResult → Result String (Unit {0})
  pub simulation_calldata : Uuid → Result String (Option (List ℕ))
  pub set_lane_state : EoaLaneState → Result String (Unit {0})
  -- the profit that a receipt's log of the executor carries
  pub extract_executed_profit : String → Option ℕ

pub record Desk : Type 0 where
  pub lane : EoaLaneState
  -- latest first
  pub recorded : List TxResult
  pub stored : List EoaLaneState

abbrev pub Handler {ℓ} : Type ℓ → Type ℓ
Handler A = Desk → Desk × Result String A

abbrev pub done {ℓ} : {A : Type ℓ} → A → Handler A
done a desk = (desk, ok a)

abbrev pub bail {ℓ} : {A : Type ℓ} → String → Handler A
bail message desk = (desk, err message)

-- an answer, awaited with `?`
abbrev pub ask {ℓ} : {A : Type ℓ} → Result String A → Handler A
ask answer desk = (desk, answer)

unfoldable pub pass_on {ℓ κ} :
    {A : Type ℓ} {B : Type κ} → Desk → Result String A → (A → Handler B) → Desk × Result String B
pass_on desk (ok a) f = f a desk
pass_on desk (err e) f = (desk, err e)

infixl 5 ◌>>=◌
abbrev pub ◌>>=◌ {ℓ κ} : {A : Type ℓ} {B : Type κ} → Handler A → (A → Handler B) → Handler B
(m >>= f) desk = pass_on (m desk).0 (m desk).1 f

-- the lane as it is, and the error of a part as a value
abbrev pub read_lane : Handler EoaLaneState
read_lane desk = (desk, ok desk.lane)

abbrev pub attempt {ℓ} : {A : Type ℓ} → Handler A → Handler (Result String A)
attempt m desk = ((m desk).0, ok (m desk).1)

-- `let Some(a) = o else { return Ok(()) }`
unfoldable pub or_return {ℓ} :
    {A : Type ℓ} → Option A → (A → Handler (Unit {0})) → Handler (Unit {0})
or_return none f desk = (desk, ok tt)
or_return (some a) f desk = f a desk

unfoldable pub branch {ℓ} : {A : Type ℓ} → Bool → Handler A → Handler A → Handler A
branch b m n = if b then m else n

abbrev pub change : (EoaLaneState → EoaLaneState) → Handler (Unit {0})
change f desk = (record desk { lane = f desk.lane }, ok tt)

abbrev pub record_transaction : Services → TxResult → Handler (Unit {0})
record_transaction services result desk =
    (record desk { recorded = result ∷ desk.recorded }, services.record_transaction result)

abbrev pub set_lane_state : Services → Handler (Unit {0})
set_lane_state services desk =
    (record desk { stored = desk.lane ∷ desk.stored }, services.set_lane_state desk.lane)

-- A run of a handler ends with a lane of the kind `P`, whether it ends with a value or an error.
pub data Ends {ℓ π} {A : Type ℓ} (P : EoaLaneState → Type π) (end : Desk × Result String A)
    : Type π where
  ends_by : P end.0.lane → Ends P end

-- A chain does so where it does without the rest, and with it after a good answer.
pub pass_on-Ends {ℓ κ π} :
    {A : Type ℓ} {B : Type κ} {P : EoaLaneState → Type π} (answer : Result String A)
    (f : A → Handler B) (desk : Desk)
    → P desk.lane
    → ((a : A) → answer ≡ ok a → Ends P (f a desk))
    → Ends P (pass_on desk answer f)
unfolding pass_on
pass_on-Ends (ok a) f desk stay go = go a refl
pass_on-Ends (err e) f desk stay go = ends_by stay

-- The same for an early return and for a test.
pub or_return-Ends {ℓ π} :
    {A : Type ℓ} {P : EoaLaneState → Type π} (o : Option A) (f : A → Handler (Unit {0}))
    (desk : Desk)
    → P desk.lane
    → ((a : A) → o ≡ some a → Ends P (f a desk))
    → Ends P (or_return o f desk)
unfolding or_return
or_return-Ends none f desk stay go = ends_by stay
or_return-Ends (some a) f desk stay go = go a refl

pub branch-Ends {ℓ π} :
    {A : Type ℓ} {P : EoaLaneState → Type π} (b : Bool) (m n : Handler A) (desk : Desk)
    → (b ≡ true → Ends P (m desk))
    → (b ≡ false → Ends P (n desk))
    → Ends P (branch b m n desk)
unfolding branch
branch-Ends true m n desk t f = t refl
branch-Ends false m n desk t f = f refl

-- A run that leaves its desk as it is, and whose value, if it ends with one, is in `P`.
pub data Tries {ℓ π} {A : Type ℓ} (desk : Desk) (P : A → Type π)
    : Desk × Result String A → Type (ℓ ⊔ π) where
  failed : (e : String) → Tries desk P (desk, err e)
  succeeded : (a : A) → P a → Tries desk P (desk, ok a)

pub pass_on-Tries {ℓ κ ρ π} :
    {A : Type ℓ} {B : Type κ} {R : A → Type ρ} {P : B → Type π} (end : Desk × Result String A)
    (f : A → Handler B) (desk : Desk)
    → Tries desk R end
    → ((a : A) → R a → Tries desk P (f a desk))
    → Tries desk P (pass_on end.0 end.1 f)
unfolding pass_on
pass_on-Tries _ f desk (failed e) go = failed e
pass_on-Tries _ f desk (succeeded a r) go = go a r

pub tried_value {ℓ π} :
    {A : Type ℓ} {P : A → Type π} {desk : Desk} {end : Desk × Result String A} {a : A}
    → Tries desk P end
    → end.1 ≡ ok a
    → P a
tried_value (failed e) h = cc
tried_value {P = P} (succeeded b p) h = subst P (ok_injective b _ h) p

pub ask-Tries {ℓ} :
    {A : Type ℓ} (desk : Desk) (answer : Result String A)
    → Tries desk (λ (a : A). Unit {0}) (desk, answer)
ask-Tries desk (ok a) = succeeded a tt
ask-Tries desk (err e) = failed e

pub attempt-Ends {ℓ κ ρ π} :
    {A : Type ℓ} {B : Type κ} {R : A → Type ρ} {P : EoaLaneState → Type π}
    (end : Desk × Result String A) (f : Result String A → Handler B) (desk : Desk)
    → Tries desk R end
    → ((e : String) → Ends P (f (err e) desk))
    → ((a : A) → R a → Ends P (f (ok a) desk))
    → Ends P (pass_on end.0 (ok end.1) f)
unfolding pass_on
attempt-Ends _ f desk (failed e) bad good = bad e
attempt-Ends _ f desk (succeeded a r) bad good = good a r

pub ends_lane {ℓ π} :
    {A : Type ℓ} {P : EoaLaneState → Type π} (end : Desk × Result String A)
    → Ends P end
    → P end.0.lane
ends_lane end (ends_by p) = p

-- A run whose answer is no only where it leaves the desk as it is and `P` holds.
pub data Declines {π} (P : Type π) (desk : Desk) (end : Desk × Result String Bool) : Type π where
  declines_by : (end.1 ≡ ok false → (end.0 ≡ desk) × P) → Declines P desk end

pub pass_on-Declines {ℓ π} :
    {A : Type ℓ} {P : Type π} {desk : Desk} (answer : Result String A) (f : A → Handler Bool)
    (now : Desk)
    → ((a : A) → answer ≡ ok a → Declines P desk (f a now))
    → Declines P desk (pass_on now answer f)
unfolding pass_on
pass_on-Declines (ok a) f now go = go a refl
pass_on-Declines (err e) f now go = declines_by λ h. cc

pub declined {π} :
    {P : Type π} (desk : Desk) (end : Desk × Result String Bool)
    → Declines P desk end
    → end.1 ≡ ok false
    → (end.0 ≡ desk) × P
declined desk end (declines_by k) = k
