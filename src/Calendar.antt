-- ===== src/Calendar.antt =====
-- internal/calendar: the journal of the commitments, the stores of their proof trees, and the
-- service that makes commitments, with the aggregator in front of it.
pub mod Journal
pub mod Store
pub mod Service
pub mod DataDir
pub mod Aggregator
