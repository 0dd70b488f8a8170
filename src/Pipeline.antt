-- ===== src/Pipeline.antt =====
-- src/pipeline: the texts of a burst are buffered for each lead and flushed as one turn.
pub mod Store
pub mod Documented
pub mod Debounce
pub mod System
pub mod Exclusive
pub mod Conserved
pub mod Flush
pub mod Stranded
pub mod Processor
pub mod Burst
