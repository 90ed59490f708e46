-- ===== src/OrderBook.antt =====
-- include/OrderBook.h and src/OrderBook.cpp.
pub mod State
pub mod Priority
pub mod Invariant
pub mod Levels
pub mod Scan
pub mod Match
pub mod Preserve
pub mod Trading
pub mod Edit
