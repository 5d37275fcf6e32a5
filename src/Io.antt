-- ===== src/Io.antt =====
-- The disk layer: core/src/features/streaming/io_scheduler.cpp and direct_io.cpp.
pub mod Scheduler
pub mod Direct
pub mod DirectLaws
pub mod SchedulerInvariant
pub mod SchedulerLaws
