-- ===== src/OpenClaw.antt =====
-- packages/ac2-open-claw-reference: the plugin of the OpenClaw host.
pub mod Sshsig
