-- ===== src/Presets.antt =====
-- internal/chess/preset.go and limits.go: the difficulty presets, their validation, the registry
-- that the program edits, and the search command they stand for.
pub mod Types
pub mod Tokens
pub mod Validate
pub mod Defaults
pub mod Registry
pub mod Go
pub mod Commands
pub mod Laws
pub mod Bounds
pub mod Parts
pub mod Safe
