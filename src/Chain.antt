-- ===== src/Chain.antt =====
-- The GHOSTDAG chain: dag.h and dag.cc.
pub mod State
pub mod Sort
pub mod Add
pub mod Invariant
pub mod Settings
pub mod Init
pub mod Ancestors
pub mod Future
pub mod Tips
pub mod Cluster
pub mod Colours
