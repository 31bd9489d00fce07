-- ===== src/Types.antt =====
-- internal/types: the encoders from PostgreSQL cells to JSON.
pub mod Text
pub mod Binary
pub mod Array
pub mod DateTime
pub mod Interval
pub mod NumericBin
pub mod Appending
