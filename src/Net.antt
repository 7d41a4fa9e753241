-- ===== src/Net.antt =====
-- The peer-to-peer programs: node_discovery, which exchanges tables of nodes, and
-- propagation_latency, which sends a message to every node and reads what comes back.
pub mod Socket
pub mod Io
pub mod Exchange
pub mod Nodes
pub mod OwnAddress
pub mod Propagation
mod Witnesses
