-- ===== src/Sync.antt =====
-- sync/: the sync manager and what it owns.
pub mod Dirty
pub mod System
pub mod Quiet
pub mod Manager
pub mod Git
