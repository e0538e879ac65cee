-- ===== src/Wire.antt =====
-- Frames on a connection: GhostDagFrameHeader, EnqueueFrame, HandleSendReady and the reassembly in
-- HandleRead, of node.h and node.cc.
pub mod Frame
pub mod Send
pub mod Receive
pub mod RoundTrip
pub mod Flow
pub mod Delivery
pub mod Connections
pub mod Tests
