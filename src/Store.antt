-- ===== src/Store.antt =====
-- internal/store: the SQLite tables, the statements of queries.sql, and the transactions on them.
pub mod Tables
pub mod Rows
pub mod Tx
pub mod Vpcs
pub mod Subnets
pub mod Instances
pub mod Log
pub mod Topology
pub mod Resources
pub mod Reconcile
pub mod Leases
pub mod Lifecycle
