-- ===== src/Compile.antt =====
-- src/ir/compile.rs: the compiler of the route table and the lookup of a request's plan.
pub mod Types
pub mod Plan
pub mod Request
pub mod Discriminator
pub mod Trie
pub mod Host
pub mod Table
pub mod L4
mod Examples
