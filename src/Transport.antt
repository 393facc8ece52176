-- ===== src/Transport.antt =====
-- transport_layer: segments, acknowledgements, the receive lists and the connections.
pub mod Segment
pub mod Segs
pub mod Acks
pub mod Point
pub mod Connect
pub mod Receive
pub mod Kept
pub mod Sender
pub mod Wire
