-- ===== src/Node.antt =====
-- The node: node.h and node.cc without its frames, which are in Wire.
pub mod Known
pub mod State
pub mod Sizes
pub mod Transactions
pub mod Timeouts
pub mod Relay
pub mod Graphene
pub mod Dispatch
pub mod Lifecycle
pub mod Tests
