-- ===== src/Wire.antt =====
-- The transport (afterburner/protocol/transport.py): JSON-RPC messages behind a four-byte length.
pub mod Stream
pub mod Request
pub mod Message
pub mod Loop
pub mod Frames
pub mod Serving
pub mod RoundTrip
