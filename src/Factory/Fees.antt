-- ===== src/Factory/Fees.antt =====
-- `FeeConfig` of packages/prismswap/src/factory.rs. A decimal is its number of atomics, so 0.05 is
-- 50 * 10^15.
use prismswap_contracts.Base.{ℕ, ◌*◌, ◌^◌, ◌≤◌, ◌≡◌, Bool, true, ◌&&◌, leb, arith}
use prismswap_contracts.Messages.{FeeConfig}

abbrev pub max_total_fee : ℕ
max_total_fee = 50 * 10 ^ 15

abbrev pub max_protocol_fee : ℕ
max_protocol_fee = 800 * 10 ^ 15

unfoldable pub is_valid : FeeConfig → Bool
is_valid f = leb f.total_fee max_total_fee && leb f.protocol_fee max_protocol_fee

-- `FeeConfig::default()`
unfoldable pub default_fees : FeeConfig
default_fees = record { total_fee = 3 * 10 ^ 15; protocol_fee = 334 * 10 ^ 15 }

-- The fees that a pair may be given.
pub record IsValid (f : FeeConfig) : Type 0 where
  pub total : f.total_fee ≤ max_total_fee
  pub protocol : f.protocol_fee ≤ max_protocol_fee

pub is_valid-IsValid : (f : FeeConfig) → is_valid f ≡ true → IsValid f
unfolding is_valid
is_valid-IsValid f h = ground arith

pub IsValid-is_valid : (f : FeeConfig) → IsValid f → is_valid f ≡ true
unfolding is_valid
IsValid-is_valid f v = ground (arith, v.total, v.protocol)

pub default_fees-IsValid : IsValid default_fees
unfolding default_fees
default_fees-IsValid = omega arith
