-- ===== src/F123.antt =====
-- formulatel/f123: the listener and the transformer for the packets of one racing title.
pub mod Model
pub mod Codec
pub mod LatestLaps
pub mod Buffer
pub mod Transformer
pub mod Listener
pub mod Config
