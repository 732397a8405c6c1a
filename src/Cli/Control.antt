-- ===== src/Cli/Control.antt =====
-- packages/ac2-cli/src/control: the daemon's control socket, which carries one JSON value to a line.
-- `JSON.parse` and `JSON.stringify` are parameters where they are used.
pub mod Lines
pub mod Frames
pub mod Client
pub mod Server
pub mod Exchange
pub mod Hub
pub mod Restart
mod Tests
