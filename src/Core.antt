-- ===== src/Core.antt =====
-- The data model, its validation and the packing of a context: internal/core.
pub mod Types
pub mod Ids
pub mod Validation
pub mod Pack
