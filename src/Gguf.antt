-- ===== src/Gguf.antt =====
-- The model file: core/src/gguf/gguf.cpp, classify.cpp and model_registry.cpp.
pub mod Classify
pub mod Stream
pub mod Types
pub mod Registry
pub mod Reader
pub mod Format
pub mod ReadBack
pub mod OpenLaws
pub mod OpenSound
pub mod KvLaws
pub mod SkipLaws
pub mod Build
pub mod SpanLaws
pub mod TileLaws
pub mod LayerLaws
