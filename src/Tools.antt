-- ===== src/Tools.antt =====
-- The programs beside the engine: tools/cne-prepare.cpp.
pub mod Prepare
pub mod PrepareLaws
