-- ===== src/Types.antt =====
-- The attribute types of internal/types, whose semantic equality folds cosmetic differences.
pub mod Runes
pub mod Path
pub mod Mac
pub mod Tests
