-- ===== src/Proxy.antt =====
-- src/proxy: what the proxy does to a request and to a response on their way.
pub mod Path
pub mod Body
pub mod Weighted
pub mod Cors
pub mod Upstream
mod Examples
