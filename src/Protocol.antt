-- ===== src/Protocol.antt =====
-- pkg/protocol: the JT808 framing, the message bodies and the message constants.
pub mod Types
pub mod Reader
pub mod Bcd
pub mod Frame
pub mod Extras
pub mod Location
pub mod Registration
