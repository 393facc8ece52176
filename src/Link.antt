-- ===== src/Link.antt =====
-- link_layer/link.c: frames on the wire, the check on arrival, and the hand-over to the sender
-- thread.
pub mod Codec
pub mod Frames
pub mod Transfer
pub mod Send
pub mod Laws
pub mod Truncated
