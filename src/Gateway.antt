-- ===== src/Gateway.antt =====
-- src/gateway: the translation of Gateway API state to the route table.
pub mod Model
pub mod FromModel
pub mod Http
pub mod Grpc
pub mod Hostnames
pub mod Grants
pub mod Namespaces
pub mod Effective
pub mod Layer4
pub mod ToIr
mod Samples
pub mod Election
pub mod Watchdog
pub mod Notify
mod Examples
