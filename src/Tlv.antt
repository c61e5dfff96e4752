-- ===== src/Tlv.antt =====
-- Package tlv: the type-length-value wire format.
pub mod Typed
pub mod Types
pub mod Map
pub mod Encode
pub mod Decode
pub mod Wire
pub mod RoundTrip
pub mod Total
pub mod Slices
pub mod Stream
mod Tests
