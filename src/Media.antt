-- ===== src/Media.antt =====
-- Package media: tokens for media streams.
pub mod Tokens
