-- ===== src/OrderManager/Reservations.antt =====
-- Order reservations: the types of robcoewmtypes/auction.py, OrderReservationController of
-- orderreservationcontroller.py and _process_orderres_cr_... of manager.py.
pub mod Types
pub mod Open
pub mod Processing
pub mod Assigning
pub mod Steps
pub mod Fresh
pub mod Accounted
pub mod Settled
