-- ===== src/F123/Codec.antt =====
-- What the game sends: each struct of formulatel/f123/model.go written as little-endian bytes.
pub mod Header
pub mod Telemetry
pub mod Motion
pub mod Lap
pub mod History
pub mod MotionEx
