-- ===== src/L4.antt =====
-- src/l4: the routing of TCP streams, TLS connections and UDP packets.
pub mod Router
mod Examples
