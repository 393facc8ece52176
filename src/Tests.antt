-- ===== src/Tests.antt =====
-- Examples of the theorems at concrete inputs.
mod Lower
mod Net
mod Sender
mod Transport
mod Hops
mod Wires
mod Relay
mod Files
mod Topologies
mod Menu
