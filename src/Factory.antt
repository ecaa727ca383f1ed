-- ===== src/Factory.antt =====
-- The factory contract, contracts/prismswap_factory/src: the register of pairs and their fees.
pub mod Fees
pub mod Pairs
pub mod State
pub mod Execute
pub mod Query
pub mod Refines
