-- ===== src/Witnesses.antt =====
-- Concrete inputs at which the hypotheses of the theorems hold.
pub mod Release
pub mod Life
pub mod Running
pub mod Inventory
pub mod Reports
