-- ===== src/Overlay.antt =====
-- crates/overlay: the graph of an overlay network and the keys of its positions.
pub mod Keys
pub mod Graph
pub mod RoundTrip
mod Examples
