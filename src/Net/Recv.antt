-- ===== src/Net/Recv.antt =====
-- The receiving thread of net_layer/net_layer.c.
pub mod Accept
pub mod Turn
pub mod Own
pub mod Whole
pub mod Forward
pub mod OneLink
pub mod Pending
pub mod Disorder
