-- ===== src/Registry.antt =====
-- control-plane/registry: the registry of nodes, instances, services and API keys.
pub mod Nodes
pub mod Instances
pub mod Services
pub mod Iam
pub mod Routes
mod Examples
