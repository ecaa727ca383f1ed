-- ===== src/Market.antt =====
-- A pair among its users: the pair's handlers together with the ledgers that deliver what they send,
-- against an abstract pool of two reserves and a number of shares.
pub mod Pool
pub mod Ledger
pub mod Effects
pub mod Trades
pub mod Deposits
pub mod Withdrawals
pub mod Exit
pub mod Sale
pub mod Intake
pub mod Value
pub mod Refines
