-- ===== src/Session.antt =====
-- The conversation slots: runtime/cne_session.h and runtime/cne_session.cpp.
pub mod Llama
pub mod Defs
pub mod Store
pub mod Invariant
pub mod Evict
pub mod Open
pub mod Assigned
pub mod Answer
pub mod Access
pub mod Prefill
pub mod Aligned
