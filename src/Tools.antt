-- ===== src/Tools.antt =====
-- tools: the scripts that the repository's own files are kept with.
pub mod Catalog
