-- ===== src/Rewriter.antt =====
-- src/endstone_endweave/rewriter: the handlers that several protocols share.
pub mod ActorEvent
pub mod Sound
