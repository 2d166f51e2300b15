-- ===== src/Timescale.antt =====
-- formulatel/internal/timescale: the batchers that write telemetry to the database.
pub mod Rows
pub mod Config
pub mod Batcher
pub mod Router
pub mod Copy
pub mod Laps
pub mod System
