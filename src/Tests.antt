-- ===== src/Tests.antt =====
-- Tests: concrete books, engines and rings, and runs of the theorems on them.
mod Books
mod Trading
mod Edits
mod Engines
mod Risks
mod Tables
mod Recoveries
mod Journals
mod Queues
mod Concurrent
