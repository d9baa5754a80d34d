-- ===== src/Cluster.antt =====
-- src/cluster: what the nodes of a cluster tell each other.
pub mod Bandwidth
