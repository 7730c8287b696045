-- ===== src/Linux.antt =====
-- ipmb/src/platform/linux.rs and the files below it: the messages on the sockets of Linux.
pub mod Examples
pub mod Buffer
pub mod Encode
pub mod Receive
pub mod Connect
pub mod Hub
pub mod Descriptors
pub mod Layout
pub mod RoundTrip
