-- ===== src/Net.antt =====
-- net_layer: datagrams, fragmentation, reassembly, routing and the send queue.
pub mod Datagram
pub mod Frag
pub mod Packs
pub mod Routes
pub mod WaitList
pub mod Send
pub mod Sending
pub mod Recv
pub mod Carry
