-- ===== src/Msgpack/RoundTrip.antt =====
-- msgpack/cc/msgpack.cc: what the writer emits, the reader takes back.
pub mod Writes
pub mod Heads
pub mod Numbers
pub mod Sizes
pub mod View
pub mod Steps
pub mod Values
pub mod Calls
pub mod Depth
