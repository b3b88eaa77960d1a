-- ===== src/Std.antt =====
-- The parts of the C++ standard library that the components stand on, as plain data.
pub mod Order
pub mod Set
pub mod Difference
pub mod Map
pub mod Reals
pub mod Table
