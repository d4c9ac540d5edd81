-- ===== src/Chat.antt =====
-- src/aomarket/aochat: the AO chat protocol. Bytes are numbers below 256.
pub mod Packet
pub mod Client
pub mod Lookup
pub mod Login
pub mod Crypto
pub mod Exchange
