-- ===== src/Policy/Tighten.antt =====
-- Patches that `classifyPolicyChange` calls tightening, against what the checks permit after and
-- before them.
pub mod Fields
pub mod Limits
pub mod Lists
pub mod Usdc
pub mod Addresses
pub mod Daily
pub mod Transaction
