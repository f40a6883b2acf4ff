-- ===== src/Simulator.antt =====
-- src/simulator: the generator of marketplace data.
pub mod BatchWriter
pub mod UniqueInsert
pub mod OrderStatus
pub mod Inventory
