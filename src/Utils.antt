-- ===== src/Utils.antt =====
-- utils/: texts, paths and encodings.
pub mod Strings
pub mod Glob
pub mod Base64
pub mod Decimal
pub mod Paths
