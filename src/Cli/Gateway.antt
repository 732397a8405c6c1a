-- ===== src/Cli/Gateway.antt =====
-- packages/ac2-cli/src/runtime/gateway: the runtime adapter that runs agents over an OpenClaw gateway.
pub mod Values
pub mod Frames
pub mod Tools
pub mod Events
pub mod Runs
pub mod Turns
pub mod Client
pub mod Link
pub mod History
pub mod Threads
mod Tests
