-- ===== src/Pair.antt =====
-- The pair contract, contracts/prismswap_pair/src: a pool of two assets that prices swaps by their
-- product.
pub mod Error
pub mod Swap
pub mod State
pub mod Liquidity
pub mod Trade
pub mod Contract
pub mod Query
pub mod Foreign
