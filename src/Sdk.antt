-- ===== src/Sdk.antt =====
-- packages/ac2-sdk
pub mod Did
pub mod Message
pub mod Client
pub mod Transport
pub mod Liquid
