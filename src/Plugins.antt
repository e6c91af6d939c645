-- ===== src/Plugins.antt =====
-- packages/plugin: the order in which plugins are mounted.
pub mod Graph
