-- ===== src/StateMachine.antt =====
-- The robot's state machine: python-modules/robcoewmrobotcontroller/robcoewmrobotcontroller/
-- statemachine.py, with its table in robcoewmtypes/robcoewmtypes/statemachine_config.py.
pub mod Config
pub mod Table
pub mod Machine
pub mod Guards
pub mod Callbacks
pub mod Entry
pub mod Process
pub mod Accepts
pub mod Handlers
mod Reference
pub mod Sorting
pub mod Decision
pub mod Safety
mod Prefixes
pub mod Connect
pub mod Restore
pub mod Resumed
mod Scenarios
mod Connecting
