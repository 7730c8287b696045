-- ===== src/Bus/Routing.antt =====
-- ipmb/src/bus_controller.rs: the theorems on `handle_message` for messages that carry a payload.
pub mod Counts
pub mod Offers
