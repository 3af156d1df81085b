-- ===== src/Tests.antt =====
-- Runs of the models at concrete inputs, and the theorems at inputs that meet their hypotheses.
mod World
mod Sync
mod Utils
mod Open
mod Search
mod Queue
mod Streaming
mod FolderWorld
mod Folders
mod Queries
mod Walks
mod Tags
mod Snippets
mod Git
