-- ===== src/Keygraph.antt =====
-- crates/keygraph: the bounded key graph.
pub mod Graph
mod Examples
