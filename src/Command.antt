-- ===== src/Command.antt =====
-- The path of the vehicle commands: from the outputs of lf-src/vehicle_cmd_gate over the network
-- of the federation to the ROS 2 topics of lf-src/bridge_interface.
pub mod Ports
pub mod Gate
pub mod Network
pub mod System
pub mod Delivery
