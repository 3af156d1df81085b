-- ===== src/Notebooks.antt =====
-- core/notebook.cpp: a notebook's configuration and its tags.
pub mod Tags
