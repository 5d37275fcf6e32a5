-- ===== src/Server.antt =====
-- The parts of server/cne-server.cpp that do not talk to a network.
pub mod Emitter
pub mod TokenStream
pub mod StreamLaws
pub mod Request
pub mod RequestLaws
pub mod Generate
pub mod GenerateLaws
pub mod ThinkLaws
