-- ===== src/Buffers.antt =====
-- core/buffer.cpp and core/buffer_manager.cpp: what is open, and its content.
pub mod Disk
pub mod Content
pub mod Backup
pub mod Manager
