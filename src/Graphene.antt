-- ===== src/Graphene.antt =====
-- The Graphene protocol: graphene.h and graphene.cc.
pub mod Numbers
pub mod Filters
pub mod Hex
pub mod Json
pub mod Sizing
pub mod Sender
pub mod Receiver
pub mod Recovery
pub mod Tests
