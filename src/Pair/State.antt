-- ===== src/Pair/State.antt =====
-- contracts/prismswap_pair/src/state.rs, with what every handler of the pair is given: the arithmetic
-- and the chain that it calls, its own address and its stored item.
use prismswap_contracts.Base.{◌≡◌, Option, none, some, ok, err, map_err}
use prismswap_contracts.Numbers.{Arith}
use prismswap_contracts.Asset.{Addr, StdResult, not_found, PairInfo}
use prismswap_contracts.Chain.{Chain}
use prismswap_contracts.Pair.Error.{PairResult, std}

pub record Config : Type 0 where
  pub pair_info : PairInfo
  pub factory : Addr

-- The item `CONFIG`; `none` before it is first saved.
abbrev pub Storage : Type 0
Storage = Option Config

-- `CONFIG.load`
unfoldable pub load : Storage → PairResult Config
load (some config) = ok config
load none = err (std not_found)

pub load-some : {s : Storage} {config : Config} → s ≡ some config → load s ≡ ok config
unfolding load
load-some e = rw e

-- `?` on a result with a `StdError`.
abbrev pub try : {A : Type 0} → StdResult A → PairResult A
try = map_err std

-- What a handler is given: `Deps` and `Env`.
pub record Deps : Type 0 where
  pub arith : Arith
  pub chain : Chain
  pub contract : Addr
  pub storage : Storage
