-- ===== src/Runtime.antt =====
-- The boot of runtime/cne_runtime.cpp.
pub mod Policy
pub mod Context
pub mod ContextLaws
