-- ===== src/RobotController.antt =====
-- The controllers around the state machine of a robot (robcoewmrobotcontroller): its missions and
-- the resources of its orders.
pub mod Missions
pub mod Commands
pub mod Chargers
pub mod Orders
pub mod Trimmed
pub mod Kept
pub mod Turns
pub mod Confirmed
mod Scenarios
