-- ===== src/System.antt =====
-- The contracts together: what one answers to another's query is what its own query function gives.
pub mod Fees
pub mod Route
pub mod Creation
