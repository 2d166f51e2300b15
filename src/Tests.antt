-- ===== src/Tests.antt =====
-- Concrete inputs, and the theorems applied to them.
pub mod Data
pub mod Packets
pub mod Laps
pub mod Rounds
pub mod Batches
pub mod Rows
pub mod Settings
pub mod Tenants
pub mod Stored
pub mod Captures
pub mod Broker
pub mod Systems
pub mod Programs
pub mod Delivered
