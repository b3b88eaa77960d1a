-- ===== src/Msgpack.antt =====
-- msgpack/cc: the MessagePack codec.
pub mod Floats
pub mod Pack
pub mod Unpack
pub mod Encode
pub mod Decode
pub mod RoundTrip
pub mod Tests
