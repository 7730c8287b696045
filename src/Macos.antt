-- ===== src/Macos.antt =====
-- ipmb/src/platform/macos/mod.rs: ports of the Mach kernel as remotes, messages on them, and the hub
-- that receives them.
pub mod Connect
pub mod Hub
pub mod Port
pub mod Wire
