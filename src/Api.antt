-- ===== src/Api.antt =====
-- The multi-tenant API helpers: runtime/cne_api.h and runtime/cne_api.cpp.
pub mod Parse
pub mod Auth
pub mod Load
pub mod Limit
pub mod Conversation
pub mod AuthLaws
pub mod LimitLaws
