-- ===== src/Registry.antt =====
-- registry/zookeeper_client.cc: its cache, its methods, what runs beside them, and what they guarantee.
pub mod Cache
pub mod ZooKeeper
pub mod Session
pub mod Nodes
pub mod Chains
pub mod Keeps
pub mod Events
pub mod Steps
pub mod Discovery
pub mod Deletion
pub mod Offers
pub mod Finding
pub mod Matching
pub mod Shared
pub mod View
