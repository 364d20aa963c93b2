-- ===== src/Router.antt =====
-- crates/router-engine: the graph of the tradeable pairs, and the paths that are found in it.
pub mod Token
pub mod Graph
pub mod Paths
pub mod Finder
pub mod Split
