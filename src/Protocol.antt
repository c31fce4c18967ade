-- ===== src/Protocol.antt =====
-- src/protocol.rs: frames of a length in four bytes and a text in UTF-8. A stream is the list of the
-- bytes on it; writing to it succeeds.
pub mod Utf8
pub mod Frames
