-- ===== src/Protocol.antt =====
-- packages/protocol/src: the shapes of what travels over the sockets, and the envelope.
pub mod Json
pub mod Session
pub mod Interaction
pub mod Message
pub mod Params
pub mod Envelope
