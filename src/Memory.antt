-- ===== src/Memory.antt =====
-- The memory plane: core/src/memory and its headers.
pub mod Budget
pub mod Kv
pub mod BudgetLaws
pub mod KvLaws
