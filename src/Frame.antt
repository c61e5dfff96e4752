-- ===== src/Frame.antt =====
-- Package frame: length-prefixed frames, and the requests and responses that they carry.
pub mod Framing
pub mod Sealing
pub mod Requests
pub mod Bounds
pub mod Responses
mod Tests
