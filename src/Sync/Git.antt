-- ===== src/Sync/Git.antt =====
-- sync/git/ and sync/retry_policy.cpp: the git backend's error codes and its rebase, over libgit2.
pub mod Errors
pub mod Agreement
pub mod Rebase
pub mod Replay
pub mod Handle
