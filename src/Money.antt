-- ===== src/Money.antt =====
-- src/money: money as an exact amount in minor units, with a file for each part of it.
pub mod Types
pub mod Bounds
pub mod Arithmetic
pub mod Exact
pub mod Rescaling
pub mod Text
pub mod Printed
pub mod RoundTrip
pub mod Conversions
pub mod Transfer
mod Tests
