-- ===== src/Config.antt =====
-- The knobs: core/src/config.cpp.
pub mod Env
pub mod EnvLaws
pub mod Knob
pub mod KnobLaws
