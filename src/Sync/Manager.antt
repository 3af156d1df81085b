-- ===== src/Sync/Manager.antt =====
-- sync/sync_manager.cpp. Each lock block is one step on the manager's maps; what runs outside the lock
-- is a call of an external.
pub mod Registry
pub mod Config
pub mod Trigger
pub mod Phases
pub mod Guards
