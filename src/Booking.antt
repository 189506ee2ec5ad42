-- ===== src/Booking.antt =====
-- The bookings of trips: planbuddy_v9/controllers/Dbservice fixed cancelbooking.js and
-- bookingController.js.
pub mod Rows
pub mod Availability
pub mod Places
pub mod Cancel
pub mod Seats
pub mod Once
pub mod Requests
pub mod Refunding
pub mod Pages
