-- ===== src/Cli.antt =====
-- packages/ac2-cli: the daemon and what it keeps on disk.
pub mod State
pub mod Broker
pub mod Control
pub mod Daemon
pub mod Gateway
