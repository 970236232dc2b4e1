-- ===== src/Common/Errors.antt =====
-- crates/common/src/errors.rs
use Prim.Native.String.{String}
use dexmoney.Prelude.{Result}

pub data ArbBotError : Type 0 where
  config : String → ArbBotError
  quote : String → ArbBotError
  risk_gate : String → ArbBotError
  simulation : String → ArbBotError
  storage : String → ArbBotError

abbrev pub ArbResult {ℓ} : Type ℓ → Type ℓ
ArbResult A = Result ArbBotError A
