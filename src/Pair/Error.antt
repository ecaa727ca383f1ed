-- ===== src/Pair/Error.antt =====
-- contracts/prismswap_pair/src/error.rs.
use prismswap_contracts.Base.{Outcome}
use prismswap_contracts.Asset.{StdError}

pub data ContractError : Type 0 where
  std : StdError → ContractError
  overflow_error : ContractError
  unauthorized : ContractError
  invalid_zero_amount : ContractError
  max_spread_assertion : ContractError
  max_slippage_assertion : ContractError
  asset_mismatch : ContractError
  too_small_offer_amount : ContractError
  doubling_assets : ContractError
  parse_reply_error : ContractError

abbrev pub PairResult : Type 0 → Type 0
PairResult A = Outcome ContractError A
