-- ===== src/Router.antt =====
-- The router: contracts/prismswap_router, packages/prismswap/src/router.rs, and `into_swap_msg` of
-- packages/prismswap/src/asset.rs.
pub mod State
pub mod Operations
pub mod Contract
pub mod Receive
pub mod Legs
