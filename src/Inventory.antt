-- ===== src/Inventory.antt =====
-- internal/inventory: asset IDs and the severity ladder.
pub mod AssetId
pub mod Row
pub mod Ladder
pub mod Diff
