-- ===== src/Cache.antt =====
-- core/include/cne/cache.h and core/src/features/streaming/cache.cpp: the slice cache.
pub mod Defs
pub mod Ops
pub mod Batch
pub mod Invariant
pub mod Room
pub mod Touch
pub mod Outcome
pub mod Memory
pub mod BatchLaws
pub mod Overshoot
