-- ===== src/Session.antt =====
-- Package session: encryption, key exchange and the session store.
pub mod Crypto
pub mod ToyAead
pub mod Handshake
pub mod ToyExchange
pub mod Store
mod Tests
