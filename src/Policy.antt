-- ===== src/Policy.antt =====
-- internal/policy: local policy documents, evaluated against an inventory.
pub mod Document
pub mod Shape
pub mod Exception
pub mod Pin
pub mod Evaluate
