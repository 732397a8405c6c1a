-- ===== src/Sdk/Did.antt =====
-- packages/ac2-sdk/src/signaling/did.ts
pub mod Radix
pub mod Convert
pub mod Base58
pub mod Base32
pub mod Key
mod Tests
