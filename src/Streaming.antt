-- ===== src/Streaming.antt =====
-- The callback of runtime/cne_stream_cb.cpp and the loops that drive it.
pub mod Names
pub mod NameLaws
pub mod Lookahead
pub mod LookaheadLaws
pub mod Dense
pub mod Router
pub mod Callback
pub mod Serve
pub mod Eval
pub mod GateLaws
