-- ===== src/Processor.antt =====
-- Batch processing: internal/outboxer/processor.go. The children hold the batch plan, the publish
-- phase, the batch, its transaction and the loop; the proofs are below them.
pub mod Triage
pub mod Publish
pub mod Batch
pub mod Transaction
pub mod Loop
