-- ===== src/Snippets.antt =====
-- core/snippet_manager.cpp: snippets, the texts that stand for a name between two '%'.
pub mod Week
pub mod Expand
pub mod Dynamic
pub mod Descriptions
pub mod Manager
pub mod Laws
