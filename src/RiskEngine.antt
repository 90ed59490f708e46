-- ===== src/RiskEngine.antt =====
-- include/RiskEngine.h and src/RiskEngine.cpp.
pub mod State
pub mod Arith
pub mod Validate
pub mod Apply
pub mod Ledger
pub mod Limits
pub mod Gate
pub mod Run
pub mod Check
