-- ===== src/OrderManager.antt =====
-- The order manager of the package robcoewmordermanager: which resources of warehouse orders it
-- keeps, which confirmations it has processed, what it asks of EWM, and the auctions of orders.
pub mod Controller
mod Fifty
mod Keys
pub mod Cleanup
pub mod Deletion
pub mod Orders
pub mod Memory
pub mod Confirmations
pub mod Manager
pub mod Confirmed
pub mod Work
pub mod WhoCr
pub mod Reservations
pub mod Auctions
pub mod Scope
pub mod RobotConfig
mod Asks
pub mod Requested
pub mod Taken
mod Reads
mod Forgets
mod Oldest
pub mod Once
pub mod Ends
mod Scenarios
pub mod Processing
mod Reserving
mod Confirming
